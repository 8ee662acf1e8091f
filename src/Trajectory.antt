-- ===== src/Trajectory.antt =====
-- trajectory.py: the two files of a run directory, and what is read from them. `json.dumps`, and the
-- seconds between two ISO times, are parameters; a disk that fails is not modelled.
pub mod Runs
pub mod Lines
pub mod Budget
pub mod Newest
use mathlib.Core.List.{reverse}
use termiclaw.Prelude.{
  ℕ, zero, suc, ◌+◌, ℤ, pos, ◌+ℤ◌, Text, codes, text_eq, strip, join, List, [], ◌∷◌, ◌++◌, Option,
  none, some, nonempty, take, length, Bool, true, false, ◌||◌, ◌&&◌, ◌==◌, leb, ltb, if◌then◌else◌,
}
use termiclaw.Float.{Float, float_bool}
use termiclaw.Errors.{Raises, returns, raises, attribute_error, value_error, type_error}
use termiclaw.Python.{
  Builtins, Json, null, boolean, int, float, str, list, dict, Items, nil, cons, Fields, end, field,
  get, json_text, int_of, Loaded, loaded, rejected,
}
use termiclaw.Model.{ParsedCommand, MetricValue, StepRecord}
use termiclaw.State.{State, status_text}
use termiclaw.Summarizer.{truthy}

-- A line ends at any of these; "\r\n" ends one line.
unfoldable pub is_break : ℕ → Bool
is_break c = leb 10 c && leb c 13 || leb 28 c && leb c 30 || c == 133 || c == 8232 || c == 8233

-- `str.splitlines()`, with the characters of the line so far, last first. `after_cr` says that the
-- character before ended a line and was "\r".
abbrev pub lines_from : Text → Bool → Text → List Text
lines_from line after_cr [] = if nonempty line then reverse line ∷ [] else []
lines_from line after_cr (c ∷ s) =
    let same = lines_from (c ∷ line) false s in
    let next = lines_from [] (c == 13) s in
    let skipped = lines_from [] false s in
    if after_cr && c == 10 then skipped else if is_break c then reverse line ∷ next else same

unfoldable pub splitlines : Text → List Text
splitlines s = lines_from [] false s

-- `bool(value)` of a decoded value.
unfoldable pub json_bool : Json → Bool
json_bool null = false
json_bool (boolean b) = b
json_bool (int (pos zero)) = false
json_bool (int z) = true
json_bool (float x) = float_bool x
json_bool (str t) = nonempty t
json_bool (list nil) = false
json_bool (list l) = true
json_bool (dict end) = false
json_bool (dict d) = true

-- `d[k] = v`: a key that is there keeps its place.
abbrev pub put : Text → Json → Fields → Fields
put k v end = field k v end
put k v (field j u d) = if text_eq j k then field j v d else field j u (put k v d)

abbrev pub metric_json : MetricValue → Json
metric_json (MetricValue.int z) = int z
metric_json (MetricValue.float x) = float x
metric_json (MetricValue.str t) = str t

-- `dict(step.metrics)`
abbrev pub metrics_dict : List (Text × MetricValue) → Fields → Fields
metrics_dict [] d = d
metrics_dict ((k, v) ∷ rest) d = metrics_dict rest (put k (metric_json v) d)

abbrev pub call_json : Text → Fields → Json
call_json name arguments =
    dict (field (codes "function_name") (str name) (field (codes "arguments") (dict arguments) end))

abbrev pub command_calls : List ParsedCommand → Items
command_calls [] = nil
command_calls (cmd ∷ cmds) =
    cons
      (call_json (codes "bash_command") (
        field (codes "keystrokes") (str cmd.keystrokes)
          (field (codes "duration") (float cmd.duration) end)))
      (command_calls cmds)

abbrev pub tool_calls : StepRecord → Items
tool_calls step =
    if step.task_complete
    then cons (call_json (codes "mark_task_complete") end) nil
    else command_calls step.commands

abbrev pub optional_text : Option Text → Json
optional_text none = null
optional_text (some t) = str t

unfoldable pub step_to_dict : StepRecord → Fields
step_to_dict step = field (codes "step_id") (str step.step_id) (
    field (codes "timestamp") (str step.timestamp) (
      field (codes "source") (str step.source) (
        field (codes "message") (str (truthy step.analysis)) (
          field (codes "tool_calls") (list (tool_calls step)) (
            field (codes "observation")
              (dict (field (codes "terminal_output") (str step.observation) end))
              (field (codes "metrics") (dict (metrics_dict step.metrics end)) (
                field (codes "is_copied_context") (boolean step.is_copied_context)
                  (field (codes "error") (optional_text step.error) end))))))))

-- What a run directory holds: run.json and trajectory.jsonl, where they exist.
pub record RunDir : Type 0 where
  pub run_json : Option Text
  pub trajectory : Option Text

abbrev pub text_or_empty : Option Text → Text
text_or_empty none = []
text_or_empty (some t) = t

-- `append_step`
unfoldable pub append_step : (Json → Text) → RunDir → StepRecord → RunDir
append_step dumps d step = record d {
  trajectory =
      some (text_or_empty d.trajectory ++ (dumps (dict (step_to_dict step)) ++ codes "\n"));
}

unfoldable pub metadata : State → Option Text → Option Text → Fields
metadata state finished_at termination_reason = field (codes "run_id") (str state.run_id) (
    field (codes "instruction") (str state.instruction) (
      field (codes "started_at") (str state.started_at) (
        field (codes "finished_at") (optional_text finished_at) (
          field (codes "status") (str (status_text state.status)) (
            field (codes "total_steps") (int (pos state.current_step)) (
              field (codes "tmux_session") (str state.tmux_session)
                (field (codes "termination_reason") (optional_text termination_reason) end)))))))

-- `write_run_metadata`, with the dump that indents.
unfoldable pub write_run_metadata :
    (Json → Text) → RunDir → State → Option Text → Option Text → RunDir
write_run_metadata dumps d state finished_at termination_reason = record d {
  run_json = some (dumps (dict (metadata state finished_at termination_reason)) ++ codes "\n");
}

-- `str(entry.get(k, default))`
abbrev pub text_or : Builtins → Text → Option Json → Text
text_or py default none = default
text_or py default (some v) = json_text py v

-- `str(observation.get("terminal_output", ""))[:200]` of an observation that is a dict.
abbrev pub shown_output : Builtins → Option Json → Text
shown_output py (some (dict o)) = take 200 (text_or py [] (get o (codes "terminal_output")))
shown_output py v = []

abbrev pub shown_error : Builtins → Option Json → Text
shown_error py none = []
shown_error py (some v) = if json_bool v then codes "\n  Error: " ++ json_text py v else []

-- The paragraph of one entry.
unfoldable pub entry_part : Builtins → Fields → Text
entry_part py entry =
    let obs = shown_output py (get entry (codes "observation")) in
    (codes "["
      ++ (take 8 (text_or py (codes "?") (get entry (codes "step_id")))
          ++ (codes "] " ++ text_or py [] (get entry (codes "message")))))
    ++ ((if nonempty obs then codes "\n  Output: " ++ obs else [])
        ++ shown_error py (get entry (codes "error")))

-- The loop over the reversed lines: a line that is no JSON is passed over, and `get` of what is no
-- dict raises AttributeError.
abbrev pub parts_from : Builtins → ℕ → ℕ → List Text → Raises (List Text)
parts_from py max_chars total [] = returns []
parts_from py max_chars total (line ∷ lines) = elim (py.loads line) [
  | rejected m ↦ parts_from py max_chars total lines
  | loaded (dict entry) ↦
      let part = entry_part py entry in
      let rest = parts_from py max_chars (total + length part) lines in
      if ltb max_chars (total + length part)
      then returns []
      else elim rest [ raises x ↦ raises x | returns parts ↦ returns (part ∷ parts) ]
  | loaded v ↦ raises attribute_error
]

abbrev pub joined : Raises (List Text) → Raises Text
joined (raises x) = raises x
joined (returns parts) = returns (join (codes "\n\n") (reverse parts))

unfoldable pub read_trajectory_text : Builtins → RunDir → ℕ → Raises Text
read_trajectory_text py d max_chars = elim d.trajectory [
  | none ↦ returns []
  | some t ↦ joined (parts_from py max_chars 0 (reverse (splitlines (strip t))))
]
