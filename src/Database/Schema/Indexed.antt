-- ===== src/Database/Schema/Indexed.antt =====
-- db.py: what init_db comes to on any file, and that it settles a file once.
use termiclaw.Prelude.{Text, one_of, List, [], ◌∷◌, ◌++◌, Bool, true, false, ◌&&◌, ◌||◌, ◌≡◌, All}
use termiclaw.Errors.{Raises, returns, raises, operational_error}
use termiclaw.Database.Schema.{
  Tables, run_script, schema, migrations, File, column_there, indexes, init_db,
}
use termiclaw.Database.Schema.Settled.{Settled}

-- Each index is there, or can be created.
abbrev pub indexable : Tables → List Text → List (Text × Text × Text) → Bool
indexable ts names [] = true
indexable ts names ((name, table, column) ∷ rest) =
    (one_of name names || column_there table column ts) && indexable ts names rest

-- What the creation of the indexes comes to.
abbrev Made : Tables → List Text → Raises (Unit {0}) × List Text → Type 0
Made ts names (raises x, left) = (x ≡ operational_error) × (indexable ts names indexes ≡ false)
Made ts names (returns _, left) =
    (indexable ts names indexes ≡ true) × All (λ i. one_of i.0 left ≡ true) indexes

-- What init_db comes to.
abbrev pub Opened : File → Raises (Unit {0}) → File → Type 0
Opened f (raises x) g =
    (x ≡ operational_error)
    × (indexable (run_script f.tables schema) f.indexes indexes ≡ false)
    × (g.tables ≡ run_script f.tables schema)
Opened f (returns _) g =
    (indexable (run_script f.tables schema) f.indexes indexes ≡ true)
    × All (Settled g.tables) (schema ++ migrations)
    × All (λ i. one_of i.0 g.indexes ≡ true) indexes
    × (init_db g ≡ (returns tt, g))
