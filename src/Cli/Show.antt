-- ===== src/Cli/Show.antt =====
-- cli.py: the commands `show`, `run` and `status`: which run is meant, and what is counted.
use termiclaw.Prelude.{
  decimal, ℕ, ◌+◌, ℤ, pos, ◌+ℤ◌, Text, codes, text_eq, starts_with, strip, join, List, [], ◌∷◌,
  ◌++◌, Option, none, some, if◌then◌else◌,
}
use termiclaw.Errors.{Raises, returns, raises, attribute_error, type_error}
use termiclaw.Python.{
  Builtins, Json, null, str, list, dict, Items, nil, cons, Fields, end, Loaded, loaded, rejected,
  get, json_text,
}
use termiclaw.Trajectory.{splitlines, json_bool}
use termiclaw.Model.{RunInfo}
use termiclaw.Artifacts.{Dir}
use termiclaw.Cli.{Ending, done, exited}

-- The names of the directories that begin with a prefix.
abbrev pub matching_dirs : Text → List Text → List Text
matching_dirs prefix [] = []
matching_dirs prefix (d ∷ ds) =
    let rest = matching_dirs prefix ds in if starts_with d prefix then d ∷ rest else rest

abbrev pub unique_dir : Text → List Text → Ending Text
unique_dir prefix [] = exited (codes "No run found matching '" ++ (prefix ++ codes "'\n"))
unique_dir prefix (d ∷ []) = done [] d
unique_dir prefix (d ∷ e ∷ ds) =
    exited (codes "Ambiguous: " ++ (join (codes ", ") (d ∷ e ∷ ds) ++ codes "\n"))

-- `_resolve_run_dir`, with the directories in the order of `iterdir`, or none if there is no path.
unfoldable pub resolve_run_dir : Option (List Text) → Text → Ending Text
resolve_run_dir none prefix = exited (codes "No runs found.\n")
resolve_run_dir (some dirs) prefix = unique_dir prefix (matching_dirs prefix dirs)

abbrev pub header_lines : Builtins → Fields → List Text → Text
header_lines py meta [] = codes "\n"
header_lines py meta (key ∷ keys) =
    key ++ (codes ": " ++ (value (get meta key) ++ (codes "\n" ++ header_lines py meta keys)))
  where
    value : Option Json → Text
    value none = codes "?"
    value (some v) = json_text py v

-- `_print_run_header`, of the decoded run.json.
unfoldable pub run_header : Builtins → Fields → Text
run_header py meta = header_lines py meta (
    codes "run_id"
    ∷ codes "status"
    ∷ codes "instruction"
    ∷ codes "total_steps"
    ∷ codes "started_at"
    ∷ codes "finished_at"
    ∷ [])

abbrev pub artifact_part : Dir → Text → Text
artifact_part d filename = elim (d filename) [
  | none ↦ []
  | some text ↦ codes "\n### " ++ (filename ++ (codes "\n" ++ (text ++ codes "\n")))
]

-- `_print_artifacts`, of a directory that is there or not.
unfoldable pub artifacts_shown : Option Dir → Text
artifacts_shown none = []
artifacts_shown (some d) =
    codes "\n--- Artifacts ---\n"
    ++ (artifact_part d (codes "WHAT_WE_DID.md")
        ++ (artifact_part d (codes "STATUS.md")
            ++ (artifact_part d (codes "DO_NEXT.md") ++ artifact_part d (codes "PLAN.md"))))

-- The instruction of `_run`: the task file's text, or none if there is no such file.
abbrev pub checked_instruction : Text → Ending Text
checked_instruction [] = exited (codes "Error: provide an instruction or --task file\n")
checked_instruction (c ∷ t) = done [] (c ∷ t)

unfoldable pub run_instruction : (instruction task : Text) → Option Text → Ending Text
run_instruction instruction [] file = checked_instruction instruction
run_instruction instruction (c ∷ task) none =
    exited (codes "Error: task file not found: " ++ ((c ∷ task) ++ codes "\n"))
run_instruction instruction (c ∷ task) (some text) = checked_instruction (strip text)

-- What `_show_usage_summary` counts.
pub record RunTotals : Type 0 where
  pub runs : ℕ
  pub steps : ℤ
  pub tokens : ℤ
  pub succeeded : ℕ
  pub failed : ℕ

abbrev pub with_run : RunInfo → RunTotals → RunTotals
with_run r t = record {
  runs = t.runs + 1;
  steps = r.total_steps +ℤ t.steps;
  tokens = r.prompt_tokens +ℤ t.tokens;
  succeeded = if text_eq r.status (codes "succeeded") then t.succeeded + 1 else t.succeeded;
  failed = if text_eq r.status (codes "failed") then t.failed + 1 else t.failed;
}

unfoldable pub run_totals : List RunInfo → RunTotals
run_totals [] = record { runs = 0; steps = pos 0; tokens = pos 0; succeeded = 0; failed = 0 }
run_totals (r ∷ rs) = with_run r (run_totals rs)

-- A line of `_print_trajectory` for a tool call: its function, and its keystrokes as repr shows them.
abbrev pub call_line : Builtins → Json → Json → Text
call_line py name keystrokes =
    codes "  > "
    ++ (json_text py name
        ++ (if json_bool keystrokes
            then codes ": " ++ (py.repr keystrokes ++ codes "\n")
            else codes "\n"))

abbrev pub or_json : Json → Option Json → Json
or_json default none = default
or_json default (some v) = v

-- A value that is no dictionary has no `get`, and raises AttributeError.
abbrev pub keystrokes_of : Option Json → Raises Json
keystrokes_of none = returns (str [])
keystrokes_of (some (dict arguments)) =
    returns (or_json (str []) (get arguments (codes "keystrokes")))
keystrokes_of (some v) = raises attribute_error

abbrev pub after_text : Text → Raises Text → Raises Text
after_text t (raises x) = raises x
after_text t (returns rest) = returns (t ++ rest)

abbrev pub one_call : Builtins → Json → Raises Text
one_call py (dict call) = elim (keystrokes_of (get call (codes "arguments"))) [
  | raises x ↦ raises x
  | returns keystrokes ↦
      returns
        (call_line py (or_json (str (codes "?")) (get call (codes "function_name"))) keystrokes)
]
one_call py v = raises attribute_error

abbrev pub call_lines : Builtins → Items → Raises Text
call_lines py nil = returns []
call_lines py (cons v vs) = elim (one_call py v) [
  | raises x ↦ raises x
  | returns t ↦ after_text t (call_lines py vs)
]

-- The loop over `step.get("tool_calls", [])`.
abbrev pub tool_lines : Builtins → Option Json → Raises Text
tool_lines py none = returns []
tool_lines py (some (list calls)) = call_lines py calls
tool_lines py (some (dict end)) = returns []
tool_lines py (some (dict d)) = raises attribute_error
tool_lines py (some (str [])) = returns []
tool_lines py (some (str t)) = raises attribute_error
tool_lines py (some v) = raises type_error

abbrev pub shown_if : Builtins → Text → Json → Text
shown_if py label v = if json_bool v then label ++ (json_text py v ++ codes "\n") else []

-- What is printed of one decoded step.
abbrev pub step_shown : Builtins → ℕ → Fields → Raises Text
step_shown py i step =
    let head =
      codes "--- Step "
      ++ (decimal i
          ++ (codes " ["
              ++ (json_text py (or_json (str (codes "?")) (get step (codes "source")))
                  ++ codes "] ---\n"))) in
    let message = shown_if py (codes "  ") (or_json (str []) (get step (codes "message"))) in
    let failure = shown_if py (codes "  ERROR: ") (or_json null (get step (codes "error"))) in
    elim (tool_lines py (get step (codes "tool_calls"))) [
      | raises x ↦ raises x
      | returns tools ↦ returns (head ++ (message ++ (tools ++ (failure ++ codes "\n"))))
    ]

abbrev pub line_shown : Builtins → ℕ → Loaded → Raises Text
line_shown py i (rejected m) = returns []
line_shown py i (loaded (dict step)) = step_shown py i step
line_shown py i (loaded v) = raises attribute_error

abbrev pub lines_shown : Builtins → ℕ → List Text → Raises Text
lines_shown py i [] = returns []
lines_shown py i (line ∷ lines) = elim (line_shown py i (py.loads line)) [
  | raises x ↦ raises x
  | returns t ↦ after_text t (lines_shown py (i + 1) lines)
]

-- `_print_trajectory`, of a file that is there or not; what was written before a raise is left out.
unfoldable pub trajectory_shown : Builtins → Option Text → Raises Text
trajectory_shown py none = returns (codes "No trajectory found.\n")
trajectory_shown py (some text) = lines_shown py 1 (splitlines (strip text))
