-- ===== src/Database/Query.antt =====
-- db.py: the queries. `_format_duration` is the one of trajectory.py. Rows of one start are read in
-- the order of the table.
use termiclaw.Prelude.{
  ℕ, ◌+◌, ℤ, pos, ◌+ℤ◌, Text, codes, text_eq, List, [], ◌∷◌, ◌++◌, Option, none, some, Bool, true,
  false, ◌&&◌, ◌||◌, ◌==◌, leb, if◌then◌else◌,
}
use termiclaw.Errors.{Raises, returns, raises}
use termiclaw.Model.{RunInfo}
use termiclaw.Trajectory.Runs.{format_duration, text_lt}
use termiclaw.Database.{Db, RunRow, StepRow}

-- LIKE folds the case of ASCII letters.
abbrev pub fold_case : ℕ → ℕ
fold_case c = if leb b'A' c && leb c b'Z' then c + 32 else c

abbrev pub any_suffix : (Text → Bool) → Text → Bool
any_suffix p [] = p []
any_suffix p (c ∷ t) = p (c ∷ t) || any_suffix p t

abbrev pub after_char : (ℕ → Bool) → (Text → Bool) → Text → Bool
after_char fits p [] = false
after_char fits p (c ∷ t) = fits c && p t

-- `text LIKE pattern`: `%` is any text, and `_` any character.
abbrev pub like : Text → Text → Bool
like [] [] = true
like [] (d ∷ t) = false
like (c ∷ p) t =
    if c == b'%'
    then any_suffix (like p) t
    else after_char (λ d. (c == b'_') || (fold_case c == fold_case d)) (like p) t

abbrev pub matching : Text → List RunRow → List RunRow
matching pattern [] = []
matching pattern (r ∷ rs) =
    let rest = matching pattern rs in if like pattern r.run_id then r ∷ rest else rest

-- The first row of `ORDER BY started_at DESC`.
abbrev pub latest : RunRow → List RunRow → RunRow
latest best [] = best
latest best (r ∷ rs) = latest (if text_lt best.started_at r.started_at then r else best) rs

-- `value or ""` and `value or None` of a column.
abbrev pub or_empty : Option Text → Text
or_empty none = []
or_empty (some t) = t

abbrev pub or_null : Option Text → Option Text
or_null none = none
or_null (some []) = none
or_null (some (c ∷ t)) = some (c ∷ t)

abbrev pub info_from : RunRow → Text → RunInfo
info_from r duration = record {
  run_id = r.run_id;
  instruction = r.instruction;
  status = r.status;
  total_steps = pos r.total_steps;
  started_at = r.started_at;
  finished_at = or_empty r.finished_at;
  tmux_session = r.tmux_session;
  termination_reason = or_empty r.termination_reason;
  prompt_tokens = r.total_prompt_tokens;
  duration = duration;
  input_tokens = r.total_input_tokens;
  output_tokens = r.total_output_tokens;
  cost_usd = r.total_cost_usd;
  parent_run_id = or_null r.parent_run_id;
  claude_session_id = r.claude_session_id;
  container_id = r.container_id;
}

abbrev pub row_info : (Text → Text → Raises ℤ) → RunRow → Raises RunInfo
row_info seconds r = elim (format_duration seconds r.started_at (or_empty r.finished_at)) [
  | raises x ↦ raises x
  | returns duration ↦ returns (info_from r duration)
]

abbrev pub first_info : (Text → Text → Raises ℤ) → List RunRow → Raises (Option RunInfo)
first_info seconds [] = returns none
first_info seconds (r ∷ rs) = elim (row_info seconds (latest r rs)) [
  | raises x ↦ raises x
  | returns info ↦ returns (some info)
]

unfoldable pub get_run : (Text → Text → Raises ℤ) → Db → Text → Raises (Option RunInfo)
get_run seconds db run_id_prefix =
    first_info seconds (matching (run_id_prefix ++ codes "%") db.runs)

-- `ORDER BY started_at DESC`
abbrev pub insert_row : RunRow → List RunRow → List RunRow
insert_row r [] = r ∷ []
insert_row r (q ∷ qs) =
    let later = insert_row r qs in
    if text_lt r.started_at q.started_at then q ∷ later else r ∷ q ∷ qs

abbrev pub by_start : List RunRow → List RunRow
by_start [] = []
by_start (r ∷ rs) = insert_row r (by_start rs)

abbrev pub row_infos : (Text → Text → Raises ℤ) → List RunRow → Raises (List RunInfo)
row_infos seconds [] = returns []
row_infos seconds (r ∷ rs) = elim (row_info seconds r) [
  | raises x ↦ raises x
  | returns info ↦ elim (row_infos seconds rs) [
    | raises x ↦ raises x
    | returns infos ↦ returns (info ∷ infos)
  ]
]

unfoldable pub list_runs_from_db : (Text → Text → Raises ℤ) → Db → Raises (List RunInfo)
list_runs_from_db seconds db = row_infos seconds (by_start db.runs)

-- `SUM` of a column over the steps of a run, 0 of none.
abbrev pub sum_of : (StepRow → ℤ) → Text → List StepRow → ℤ
sum_of column run_id [] = pos 0
sum_of column run_id (r ∷ rs) =
    let rest = sum_of column run_id rs in if text_eq r.run_id run_id then column r +ℤ rest else rest

-- The two token counts of `aggregate_usage` in runtime.py; the sum of the costs is not modelled.
unfoldable pub aggregate_usage : Db → Text → ℤ × ℤ
aggregate_usage db run_id =
    (sum_of (λ r. r.input_tokens) run_id db.steps, sum_of (λ r. r.output_tokens) run_id db.steps)
