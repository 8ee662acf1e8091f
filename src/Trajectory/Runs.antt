-- ===== src/Trajectory/Runs.antt =====
-- trajectory.py: the list of runs, newest first.
use termiclaw.Prelude.{
  ◌/◌, ◌%◌, ℤ, pos, negsuc, ◌+ℤ◌, Text, codes, strip, decimal, List, [], ◌∷◌, ◌++◌, Option, none,
  some, nonempty, Bool, true, false, ◌||◌, ◌&&◌, ◌==◌, ltb, if◌then◌else◌,
}
use termiclaw.Float.{finite}
use termiclaw.Errors.{Raises, returns, raises, Exception, attribute_error, value_error, type_error}
use termiclaw.Python.{Builtins, Json, dict, Fields, get, int_of, Loaded, loaded, rejected}
use termiclaw.Model.{RunInfo}
use termiclaw.Trajectory.{RunDir, splitlines, text_or}

-- A run of the list before its defaults are in: the fields of RunInfo that list_runs gives.
abbrev pub info_of :
    (run_id instruction status : Text) (total_steps : ℤ)
    (started_at finished_at tmux_session termination_reason : Text) (prompt_tokens : ℤ)
    (duration : Text)
    → RunInfo
info_of run_id instruction status total_steps started_at finished_at tmux_session reason tokens
      duration =
    record {
      run_id = run_id;
      instruction = instruction;
      status = status;
      total_steps = total_steps;
      started_at = started_at;
      finished_at = finished_at;
      tmux_session = tmux_session;
      termination_reason = reason;
      prompt_tokens = tokens;
      duration = duration;
      input_tokens = pos 0;
      output_tokens = pos 0;
      cost_usd = finite (pos 0);
      parent_run_id = none;
      claude_session_id = [];
      container_id = [];
    }

-- What `except (JSONDecodeError, TypeError, ValueError)` lets pass: everything else.
abbrev pub skipped : Exception → Bool
skipped value_error = true
skipped type_error = true
skipped _ = false

abbrev pub int_or_zero : Builtins → Option Json → Raises ℤ
int_or_zero py none = returns (pos 0)
int_or_zero py (some v) = int_of py v

-- The tokens of one line. A value that is no dict has no `get`: AttributeError.
abbrev pub line_tokens : Builtins → Loaded → Raises ℤ
line_tokens py (rejected m) = returns (pos 0)
line_tokens py (loaded (dict entry)) = elim (get entry (codes "metrics")) [
  | some (dict metrics) ↦ int_or_zero py (get metrics (codes "prompt_tokens"))
  | _ ↦ returns (pos 0)
]
line_tokens py (loaded v) = raises attribute_error

abbrev pub caught_tokens : Raises ℤ → Raises ℤ
caught_tokens (returns z) = returns z
caught_tokens (raises x) = if skipped x then returns (pos 0) else raises x

abbrev pub sum_lines : Builtins → ℤ → List Text → Raises ℤ
sum_lines py total [] = returns total
sum_lines py total (line ∷ lines) = elim (caught_tokens (line_tokens py (py.loads line))) [
  | raises x ↦ raises x
  | returns z ↦ sum_lines py (total +ℤ z) lines
]

unfoldable pub sum_prompt_tokens : Builtins → RunDir → Raises ℤ
sum_prompt_tokens py d = elim d.trajectory [
  | none ↦ returns (pos 0)
  | some t ↦ sum_lines py (pos 0) (splitlines (strip t))
]

-- The text of a number of seconds.
abbrev pub duration_text : ℤ → Text
duration_text (negsuc n) = codes "-"
duration_text (pos total) =
    let minutes = total / 60 in
    if ltb total 60
    then decimal total ++ codes "s"
    else if ltb minutes 60
    then decimal minutes ++ (codes "m " ++ (decimal (total % 60) ++ codes "s"))
    else decimal (minutes / 60) ++ (codes "h " ++ (decimal (minutes % 60) ++ codes "m"))

-- `_format_duration`, with `int((end - start).total_seconds())` of two texts given: ValueError of a
-- text that is no ISO time is caught, TypeError of times with and without a zone is not.
unfoldable pub format_duration : (Text → Text → Raises ℤ) → Text → Text → Raises Text
format_duration seconds started_at finished_at =
    if nonempty started_at && nonempty finished_at
    then (elim (seconds started_at finished_at) [
      | returns z ↦ returns (duration_text z)
      | raises value_error ↦ returns (codes "-")
      | raises x ↦ raises x
    ])
    else returns (codes "-")

-- One run: the dict of its run.json.
unfoldable pub run_info : Builtins → (Text → Text → Raises ℤ) → RunDir → Fields → Raises RunInfo
run_info py seconds d meta =
    let text : Text → Text = λ k. text_or py [] (get meta k) in
    let started = text (codes "started_at") in
    let finished = text (codes "finished_at") in
    elim (int_or_zero py (get meta (codes "total_steps"))) [
      | raises x ↦ raises x
      | returns steps ↦ elim (sum_prompt_tokens py d) [
        | raises x ↦ raises x
        | returns tokens ↦ elim (format_duration seconds started finished) [
          | raises x ↦ raises x
          | returns duration ↦ returns (
              info_of (text (codes "run_id")) (text (codes "instruction")) (text (codes "status"))
                steps started finished (text (codes "tmux_session"))
                (text (codes "termination_reason")) tokens duration)
        ]
      ]
    ]

-- The loop over the directories; one without a run.json, or with one that is no JSON, is passed over.
abbrev pub infos_of : Builtins → (Text → Text → Raises ℤ) → List RunDir → Raises (List RunInfo)
infos_of py seconds [] = returns []
infos_of py seconds (d ∷ ds) = elim d.run_json [
  | none ↦ infos_of py seconds ds
  | some t ↦ elim (py.loads t) [
    | rejected m ↦ infos_of py seconds ds
    | loaded (dict meta) ↦ elim (run_info py seconds d meta) [
      | raises x ↦ raises x
      | returns info ↦ elim (infos_of py seconds ds) [
        | raises x ↦ raises x
        | returns infos ↦ returns (info ∷ infos)
      ]
    ]
    | loaded v ↦ raises attribute_error
  ]
]

-- Python's `a < b` of two texts.
abbrev pub text_lt : Text → Text → Bool
text_lt s [] = false
text_lt [] (d ∷ t) = true
text_lt (c ∷ s) (d ∷ t) = ltb c d || (c == d && text_lt s t)

-- The stable sort by the start, latest first.
abbrev pub insert_run_info : RunInfo → List RunInfo → List RunInfo
insert_run_info r [] = r ∷ []
insert_run_info r (q ∷ qs) =
    let later = insert_run_info r qs in
    if text_lt r.started_at q.started_at then q ∷ later else r ∷ q ∷ qs

abbrev pub newest_first : List RunInfo → List RunInfo
newest_first [] = []
newest_first (r ∷ rs) = insert_run_info r (newest_first rs)

abbrev pub sorted_infos : Raises (List RunInfo) → Raises (List RunInfo)
sorted_infos (raises x) = raises x
sorted_infos (returns infos) = returns (newest_first infos)

-- `list_runs`, with the directories in the order of `iterdir`, or none if there is no such path.
unfoldable pub list_runs :
    Builtins → (Text → Text → Raises ℤ) → Option (List RunDir) → Raises (List RunInfo)
list_runs py seconds none = returns []
list_runs py seconds (some ds) = sorted_infos (infos_of py seconds ds)
