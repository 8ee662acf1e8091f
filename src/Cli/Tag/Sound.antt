-- ===== src/Cli/Tag/Sound.antt =====
-- cli.py: what the table of failure tags holds after any sequence of `tag` commands.
use termiclaw.Prelude.{
  ℕ, ℤ, Text, codes, text_eq, text_eq_refl, List, [], ◌∷◌, ◌++◌, Option, none, some, Bool, true,
  false, ◌||◌, ◌≡◌, refl, sym, ap, ◌∙◌, subst, arith, All, All-append, inl, inr, Bool-cases,
  if◌then◌else◌,
}
use termiclaw.Errors.{Raises, returns, raises}
use termiclaw.Model.{RunInfo}
use termiclaw.Trajectory.Runs.{text_lt, format_duration}
use termiclaw.Database.{Db, RunRow}
use termiclaw.Database.Query.{
  like, matching, latest, first_info, row_info, get_run, or_empty, info_from,
}
use termiclaw.Database.Search.{TagRow, insert_failure_tag}
use termiclaw.Database.Reports.{
  failure_histogram, tagged_since, counted, groups_of, by_count, All-insert_group,
}
use termiclaw.Tagging.{is_valid_category}
use termiclaw.Cli.Tag.{TagArgs, tag, tag_found, tag_row}

-- Whether a run is in the table.
abbrev pub has_run : List RunRow → Text → Bool
has_run [] id = false
has_run (r ∷ rs) id = text_eq r.run_id id || has_run rs id

-- A tag of a stored run, in the closed set of categories.
abbrev pub Sound : Db → TagRow → Type 0
Sound db t = (is_valid_category t.category ≡ true) × (has_run db.runs t.run_id ≡ true)

latest-has_run :
    (rows : List RunRow) (best : RunRow) (rs : List RunRow)
    → has_run rows best.run_id ≡ true
    → All (λ r. has_run rows r.run_id ≡ true) rs
    → has_run rows (latest best rs).run_id ≡ true
latest-has_run rows best [] there h = there
latest-has_run rows best (r ∷ rs) there (now, later) =
    latest-has_run rows (if text_lt best.started_at r.started_at then r else best) rs
      (either (text_lt best.started_at r.started_at)) later
  where
    either : (b : Bool) → has_run rows (if b then r else best).run_id ≡ true
    either true = now
    either false = there

matching-has_run :
    (pattern : Text) (rows : List RunRow)
    → All (λ r. has_run rows r.run_id ≡ true) (matching pattern rows)
matching-has_run pattern [] = tt
matching-has_run pattern (r ∷ rs) = elim (Bool-cases (like pattern r.run_id)) [
  | inl fits ↦
      rw fits (
        rw (text_eq_refl r.run_id) refl,
        others (matching pattern rs) (matching-has_run pattern rs),
      )
  | inr apart ↦ rw apart (others (matching pattern rs) (matching-has_run pattern rs))
]
  where
    others :
        (found : List RunRow)
        → All (λ q. has_run rs q.run_id ≡ true) found
        → All (λ q. has_run (r ∷ rs) q.run_id ≡ true) found
    others [] h = tt
    others (q ∷ qs) (now, later) = (rw now (ground arith), others qs later)

row_info-run_id :
    (seconds : Text → Text → Raises ℤ) (r : RunRow) (info : RunInfo)
    → row_info seconds r ≡ returns info
    → info.run_id ≡ r.run_id
row_info-run_id seconds r info e =
    read (format_duration seconds r.started_at (or_empty r.finished_at)) e
  where
    read :
        (o : Raises Text)
        → ◌≡◌ {A = Raises RunInfo}
            (elim o [ raises x ↦ raises x | returns duration ↦ returns (info_from r duration) ])
            (returns info)
        → info.run_id ≡ r.run_id
    read (raises x) e = absurd (cc e)
    read (returns duration) e = ap (λ (i : RunInfo). i.run_id) (returned e)
      where
        returned : {a b : RunInfo} → returns a ≡ returns b → b ≡ a
        returned e = cc e

first_info-has_run :
    (seconds : Text → Text → Raises ℤ) (rows found : List RunRow) (info : RunInfo)
    → All (λ r. has_run rows r.run_id ≡ true) found
    → first_info seconds found ≡ returns (some info)
    → has_run rows info.run_id ≡ true
first_info-has_run seconds rows [] info h e = absurd (cc e)
first_info-has_run seconds rows (r ∷ rs) info (now, later) e =
    subst (λ id. has_run rows id ≡ true) (sym (read (row_info seconds (latest r rs)) refl e))
      (latest-has_run rows r rs now later)
  where
    read :
        (o : Raises RunInfo)
        → row_info seconds (latest r rs) ≡ o
        → ◌≡◌ {A = Raises (Option RunInfo)}
            (elim o [ raises x ↦ raises x | returns found ↦ returns (some found) ])
            (returns (some info))
        → info.run_id ≡ (latest r rs).run_id
    read (raises x) ran e = absurd (cc e)
    read (returns found) ran e =
        ap (λ (i : RunInfo). i.run_id) (returned e)
        ∙ row_info-run_id seconds (latest r rs) found ran
      where
        returned : {a b : RunInfo} → returns (some a) ≡ returns (some b) → b ≡ a
        returned e = cc e

-- The commands one after the other, each at its time.
abbrev pub tag_all :
    (Text → Text → Raises ℤ) → Db → List (TagArgs × Text) → List TagRow → List TagRow
tag_all seconds db [] rows = rows
tag_all seconds db ((args, at) ∷ rest) rows =
    tag_all seconds db rest (tag seconds db args at rows).1

tag-Sound :
    (seconds : Text → Text → Raises ℤ) (db : Db) (args : TagArgs) (at : Text) (rows : List TagRow)
    → All (Sound db) rows
    → All (Sound db) (tag seconds db args at rows).1
unfolding tag insert_failure_tag get_run
tag-Sound seconds db args at rows h = elim (Bool-cases (is_valid_category args.category)) [
  | inr unknown ↦ rw unknown h
  | inl valid ↦ rw valid (found valid (get_run seconds db args.run_id) refl)
]
  where
    found :
        is_valid_category args.category ≡ true
        → (o : Raises (Option RunInfo))
        → first_info seconds (matching (args.run_id ++ codes "%") db.runs) ≡ o
        → All (Sound db) (tag_found args at rows o).1
    found valid (raises x) e = h
    found valid (returns none) e = h
    found valid (returns (some info)) e =
        All-append (Sound db) rows (tag_row args info.run_id at ∷ []) h (
          (
            valid,
            first_info-has_run seconds db.runs (matching (args.run_id ++ codes "%") db.runs) info
                (matching-has_run (args.run_id ++ codes "%") db.runs) e,
          ),
          tt,
        )

tag_all-Sound :
    (seconds : Text → Text → Raises ℤ) (db : Db) (calls : List (TagArgs × Text))
    (rows : List TagRow)
    → All (Sound db) rows
    → All (Sound db) (tag_all seconds db calls rows)
tag_all-Sound seconds db [] rows h = h
tag_all-Sound seconds db ((args, at) ∷ rest) rows h =
    tag_all-Sound seconds db rest (tag seconds db args at rows).1
      (tag-Sound seconds db args at rows h)

-- A group of a histogram under a category of the closed set.
abbrev pub Closed : Text × ℕ → Type 0
Closed g = is_valid_category g.0 ≡ true

histogram-Closed :
    (db : Db) (rows : List TagRow) (since_iso : Option Text)
    → All (Sound db) rows
    → All Closed (failure_histogram rows since_iso)
unfolding failure_histogram
histogram-Closed db rows since_iso h =
    sorted (groups_of (tagged_since since_iso rows))
      (grouped (tagged_since since_iso rows) (recent since_iso rows h))
  where
    recent :
        (since : Option Text) (ts : List TagRow)
        → All (Sound db) ts
        → All (Sound db) (tagged_since since ts)
    recent none ts h = h
    recent (some since) [] h = tt
    recent (some since) (t ∷ ts) (now, later) = elim (Bool-cases (text_lt t.tagged_at since)) [
      | inl before ↦ rw before (recent (some since) ts later)
      | inr after ↦ rw after (now, recent (some since) ts later)
    ]

    with_one :
        (category : Text) (gs : List (Text × ℕ))
        → is_valid_category category ≡ true
        → All Closed gs
        → All Closed (counted category gs)
    with_one category [] valid h = (valid, tt)
    with_one category (g ∷ gs) valid (now, later) = elim (Bool-cases (text_eq g.0 category)) [
      | inl same ↦ rw same (now, later)
      | inr other ↦ rw other (now, with_one category gs valid later)
    ]

    grouped : (ts : List TagRow) → All (Sound db) ts → All Closed (groups_of ts)
    grouped [] h = tt
    grouped (t ∷ ts) (now, later) = with_one t.category (groups_of ts) now.0 (grouped ts later)

    sorted : (gs : List (Text × ℕ)) → All Closed gs → All Closed (by_count gs)
    sorted [] h = tt
    sorted (g ∷ gs) (now, later) = All-insert_group Closed g (by_count gs) now (sorted gs later)

-- For any sequence of `tag` commands on an empty table, with any arguments: every tag in the
-- table has a valid category and the id of a run of the table of runs, and the histogram of the
-- tags, from any start, has groups of valid categories only.
pub tag_all-Closed :
    (seconds : Text → Text → Raises ℤ) (db : Db) (calls : List (TagArgs × Text))
    (since_iso : Option Text)
    → let tags = tag_all seconds db calls [] in
      All (Sound db) tags × All Closed (failure_histogram tags since_iso)
tag_all-Closed seconds db calls since_iso =
    let sound = tag_all-Sound seconds db calls [] tt in
    (sound, histogram-Closed db (tag_all seconds db calls []) since_iso sound)
