-- ===== src/Cli/Tag.antt =====
-- cli.py: the commands `tag` and `failures`, over the tables of runs and of failure tags.
pub mod Sound
use termiclaw.Prelude.{
  ℕ, ℤ, Text, codes, decimal, join, take, nonempty, List, [], ◌∷◌, ◌++◌, Option, none, some, Bool,
  true, false, ◌||◌, text_eq, if◌then◌else◌,
}
use termiclaw.Errors.{Raises, returns, raises, value_error}
use termiclaw.Model.{RunInfo}
use termiclaw.Database.{Db}
use termiclaw.Database.Query.{get_run}
use termiclaw.Database.Search.{TagRow, insert_failure_tag}
use termiclaw.Database.Reports.{failure_histogram}
use termiclaw.Tagging.{is_valid_category, valid_categories}
use termiclaw.Cli.{Ending, done, exited}

-- The arguments that `_tag` reads.
pub record TagArgs : Type 0 where
  pub run_id : Text
  pub category : Text
  pub step : Option ℕ
  pub note : Option Text

abbrev pub at_step : Option ℕ → Text
at_step none = []
at_step (some n) = codes " at step " ++ decimal n

abbrev pub tag_row : TagArgs → Text → Text → TagRow
tag_row args run_id tagged_at = record {
  run_id = run_id;
  step_index = args.step;
  category = args.category;
  note = args.note;
  tagged_at = tagged_at;
}

-- The end of `_tag`, with what `get_run` gave.
abbrev pub tag_found :
    TagArgs
    → Text
    → List TagRow
    → Raises (Option RunInfo)
    → Raises (Ending (Unit {0})) × List TagRow
tag_found args tagged_at rows (raises x) = (raises x, rows)
tag_found args tagged_at rows (returns none) = (
  returns (exited (codes "Error: no run found matching '" ++ (args.run_id ++ codes "'\n"))),
  rows,
)
tag_found args tagged_at rows (returns (some run_info)) = (
  returns (
      done
        (codes "Tagged run "
          ++ (take 8 run_info.run_id
              ++ (codes " as '"
                  ++ (args.category ++ (codes "'" ++ (at_step args.step ++ codes "\n"))))))
        tt),
  insert_failure_tag rows (tag_row args run_info.run_id tagged_at),
)

-- `_tag`, at a time, on the tags so far.
unfoldable pub tag :
    (Text → Text → Raises ℤ)
    → Db
    → TagArgs
    → (tagged_at : Text) → List TagRow
    → Raises (Ending (Unit {0})) × List TagRow
tag seconds db args tagged_at rows =
    if is_valid_category args.category
    then tag_found args tagged_at rows (get_run seconds db args.run_id)
    else (
      returns (
          exited (
            codes "Error: unknown category '"
            ++ (args.category
                ++ (codes "'. Valid: " ++ (join (codes ", ") valid_categories ++ codes "\n"))))),
      rows,
    )

-- `^(\d+)d$`: the digits. A line feed may follow.
abbrev pub days_end : Text → Bool
days_end t = text_eq t (codes "d") || text_eq t (codes "d\n")

abbrev pub digits_and : ℕ → Option Text → Option Text
digits_and c none = none
digits_and c (some digits) = some (c ∷ digits)

abbrev pub days_of : (ℕ → Bool) → Text → Option Text
days_of is_decimal [] = none
days_of is_decimal (c ∷ t) =
    let later = digits_and c (days_of is_decimal t) in
    if is_decimal c then if days_end t then some (c ∷ []) else later else none

-- `_resolve_since`, with the time that lies so many days back.
unfoldable pub resolve_since : (ℕ → Bool) → (Text → Raises Text) → Text → Raises Text
resolve_since is_decimal days_ago value = elim (days_of is_decimal value) [
  | none ↦ returns value
  | some digits ↦ days_ago digits
]

abbrev pub since_option : (ℕ → Bool) → (Text → Raises Text) → Option Text → Raises (Option Text)
since_option is_decimal days_ago none = returns none
since_option is_decimal days_ago (some []) = returns none
since_option is_decimal days_ago (some (c ∷ value)) =
    elim (resolve_since is_decimal days_ago (c ∷ value)) [
      | raises x ↦ raises x
      | returns since ↦ returns (some since)
    ]

-- The histogram of `_failures`; how it is laid out is not modelled.
unfoldable pub failures :
    (ℕ → Bool) → (Text → Raises Text) → Option Text → List TagRow → Raises (List (Text × ℕ))
failures is_decimal days_ago since rows = elim (since_option is_decimal days_ago since) [
  | raises x ↦ raises x
  | returns since_iso ↦ returns (failure_histogram rows since_iso)
]
