-- ===== src/Artifacts/Refresh.antt =====
-- artifacts.py: what a refresh leaves in the directory.
use termiclaw.Prelude.{
  ℕ, Text, List, [], ◌∷◌, map, Bool, true, false, some, take, ◌≡◌, refl, sym, ◌⊎◌, inl, inr, All,
  All-append, subst, Bool-cases,
}
use termiclaw.Errors.{Raises, returns, raises, unicode_error}
use termiclaw.Action.{Action}
use termiclaw.Python.{Builtins}
use termiclaw.Model.{Config}
use termiclaw.State.{State}
use termiclaw.Container.{has_surrogate}
use termiclaw.Artifacts.{
  Dir, put, prefixes, Passing, last_or, tmp_name, replace, artifact_files, parse_artifact_response,
  and_then, write_files,
}
use termiclaw.Artifacts.Writes.{
  last_or-append, landed, passed, write_atomic-bad, write_atomic-clean,
}

-- In the directory u every file of d has its old content or the text `limit` lets through.
abbrev pub OldOrNew : (Text → Text) → ℕ → Dir → Dir → Text × Text → Type 0
OldOrNew texts limit d u (key, filename) =
    (u filename ≡ d filename) ⊎ (u filename ≡ some (take limit (texts key)))

abbrev pub Old : Dir → Dir → Text × Text → Type 0
Old d u (key, filename) = u filename ≡ d filename

-- What the loop comes to: a file whose text has a lone surrogate, and those after it, are as they
-- were, and those before it are new.
abbrev pub Unless : Bool → Type 0 → Type 0 → Type 0
Unless true stopped onward = stopped
Unless false stopped onward = onward

abbrev pub Written : (Text → Text) → ℕ → Dir → Dir → Raises (Unit {0}) → List (Text × Text) → Type 0
Written texts limit d u r [] = r ≡ returns tt
Written texts limit d u r ((key, filename) ∷ rest) =
    Unless (has_surrogate (take limit (texts key)))
      ((r ≡ raises unicode_error) × All (Old d u) ((key, filename) ∷ rest))
      ((u filename ≡ some (take limit (texts key))) × Written texts limit d u r rest)

-- What a refresh does, by the answer that it got.
abbrev pub Refreshed : Config → Dir → Raises (Text → Text) → Passing → Type 0
Refreshed config d (raises x) p = (p.0 ≡ raises x) × (p.1 ≡ [])
Refreshed config d (returns texts) p =
    Written texts config.state_dump_max_chars_per_file d (last_or d p.1) p.0 artifact_files

abbrev Kept : (Text → Text) → ℕ → Dir → Dir → Type 0
Kept texts limit d u = All (OldOrNew texts limit d u) artifact_files

-- A file whose writes, whole or cut short, keep what holds of a directory.
abbrev Safe : (Text → Text) → ℕ → (Dir → Type 0) → Text × Text → Type 0
Safe texts limit P (key, filename) =
    ((u : Dir) (t : Text) → P u → P (put u (tmp_name filename) t))
    × ((u : Dir) → P u → P (landed u filename (take limit (texts key))))

map-All :
    (P : Dir → Type 0) (f : Text → Dir)
    → ((t : Text) → P (f t))
    → (ts : List Text) → All P (map f ts)
map-All P f h [] = tt
map-All P f h (t ∷ ts) = (h t, map-All P f h ts)

module _ (texts : Text → Text) (limit : ℕ) (P : Dir → Type 0) where
  write_files-All :
      (files : List (Text × Text)) (d : Dir)
      → All (Safe texts limit P) files
      → P d
      → All P (write_files texts limit files d).1
  unfolding write_files
  write_files-All [] d safe now = tt
  write_files-All ((key, filename) ∷ rest) d ((cut, whole), later) now =
      let content = take limit (texts key) in
      elim (Bool-cases (has_surrogate content)) [
        | inl bad ↦ subst All_of (sym (write_atomic-bad d filename content bad)) (cut d [] now, tt)
        | inr clean ↦ subst All_of (sym (write_atomic-clean d filename content clean)) (
            All-append P (passed d filename content) _
              (All-append P (map (put d (tmp_name filename)) (prefixes content)) _
                (map-All P (put d (tmp_name filename)) (λ t. cut d t now) (prefixes content))
                (whole d now, tt))
              (subst (λ u. All P (write_files texts limit rest u).1)
                (sym (
                  last_or-append (map (put d (tmp_name filename)) (prefixes content))
                    (landed d filename content ∷ []) d))
                (write_files-All rest (landed d filename content) later (whole d now))))
      ]
    where
      All_of : Passing → Type 0
      All_of file = All P (and_then file (write_files texts limit rest (last_or d file.1))).1

artifact_files-Safe :
    (texts : Text → Text) (limit : ℕ) (d : Dir)
    → All (Safe texts limit (Kept texts limit d)) artifact_files
unfolding put replace
artifact_files-Safe texts limit d = (
  ((λ u t k. k), (λ u k. (inr refl, k.1))),
  (
    ((λ u t k. k), (λ u k. (k.0, (inr refl, k.1.1)))),
    (
      ((λ u t k. k), (λ u k. (k.0, (k.1.0, (inr refl, k.1.1.1))))),
      (((λ u t k. k), (λ u k. (k.0, (k.1.0, (k.1.1.0, (inr refl, tt)))))), tt),
    ),
  ),
)

-- In every directory that the loop of a refresh passes through, after the opening of a file,
-- after each character that is written and after each rename, and also where a text cannot be
-- written, each of the four files holds its old content or its whole new one.
pub write_files-OldOrNew :
    (texts : Text → Text) (limit : ℕ) (d : Dir)
    → All
        (λ u. All (OldOrNew texts limit d u) artifact_files)
        (write_files texts limit artifact_files d).1
write_files-OldOrNew texts limit d =
    write_files-All texts limit (Kept texts limit d) artifact_files d
      (artifact_files-Safe texts limit d) (inl refl, (inl refl, (inl refl, (inl refl, tt))))

-- The texts that the answer of the query function has.
abbrev pub parsed : Builtins → Raises Text → Raises (Text → Text)
parsed py (raises x) = raises x
parsed py (returns raw) = parse_artifact_response py raw
