-- ===== src/Atif.antt =====
-- atif.py: the export of a run directory as an ATIF run. `asdict` and `json.dumps` of the result are
-- not modelled.
pub mod RoundTrip
use termiclaw.Prelude.{
  ℕ, ℤ, pos, Text, codes, strip, List, [], ◌∷◌, ◌++◌, Option, none, some, nonempty, take, Bool,
  true, false, if◌then◌else◌,
}
use termiclaw.Float.{Float, finite}
use termiclaw.Errors.{Raises, returns, raises, Result, ok, err, ParseError}
use termiclaw.Python.{
  Builtins, Json, null, boolean, int, float, str, list, dict, Items, nil, cons, Fields, end, field,
  get, json_text, int_of, float_of, Loaded, loaded, rejected,
}
use termiclaw.Validate.{Checked, parse_error, require_dict}
use termiclaw.Trajectory.{RunDir, splitlines, json_bool, text_or}

-- `str | float | int | bool`
pub record AtifToolCall : Type 0 where
  pub function_name : Text
  pub arguments : List (Text × Json)

pub record AtifMetrics : Type 0 where
  pub prompt_tokens : ℤ
  pub input_tokens : ℤ
  pub output_tokens : ℤ
  pub cost_usd : Float
  pub planner_duration_ms : ℤ

pub record AtifStep : Type 0 where
  pub step_id : Text
  pub timestamp : Text
  pub source : Text
  pub message : Text
  pub tool_calls : List AtifToolCall
  pub terminal_output : Text
  pub metrics : AtifMetrics
  pub is_copied_context : Bool
  pub error : Option Text
  pub model_name : Text
  pub reasoning_content : Option Text

pub record AtifRun : Type 0 where
  pub schema_version : Text
  pub run_id : Text
  pub session_id : Text
  pub instruction : Text
  pub started_at : Text
  pub finished_at : Text
  pub status : Text
  pub steps : List AtifStep

abbrev pub no_metrics : AtifMetrics
no_metrics = record {
  prompt_tokens = pos 0;
  input_tokens = pos 0;
  output_tokens = pos 0;
  cost_usd = finite (pos 0);
  planner_duration_ms = pos 0;
}

-- `_int`: a bool is an int too.
abbrev pub int_value : Builtins → Option Json → Raises ℤ
int_value py (some (boolean b)) = int_of py (boolean b)
int_value py (some (int z)) = int_of py (int z)
int_value py (some (float x)) = int_of py (float x)
int_value py v = returns (pos 0)

-- `_float`
abbrev pub float_value : Builtins → Option Json → Raises Float
float_value py (some (boolean b)) = float_of py (boolean b)
float_value py (some (int z)) = float_of py (int z)
float_value py (some (float x)) = float_of py (float x)
float_value py v = returns (finite (pos 0))

infixl 5 ◌>>=◌
abbrev pub ◌>>=◌ : {A B : Type 0} → Raises A → (A → Raises B) → Raises B
returns a >>= f = f a
raises x >>= f = raises x

-- `_parse_metrics`
unfoldable pub parse_metrics : Builtins → Option Json → Raises AtifMetrics
parse_metrics py (some (dict d)) = do
  prompt ← int_value py (get d (codes "prompt_tokens"))
  input ← int_value py (get d (codes "input_tokens"))
  output ← int_value py (get d (codes "output_tokens"))
  cost ← float_value py (get d (codes "cost_usd"))
  duration ← int_value py (get d (codes "planner_duration_ms"))
  returns (record {
    prompt_tokens = prompt;
    input_tokens = input;
    output_tokens = output;
    cost_usd = cost;
    planner_duration_ms = duration;
  })
parse_metrics py v = returns no_metrics

-- `_parse_observation`
unfoldable pub parse_observation : Option Json → Text
parse_observation (some (dict o)) = elim (get o (codes "terminal_output")) [
  | some (str t) ↦ t
  | _ ↦ []
]
parse_observation v = []

-- The arguments that are a str, an int, a float or a bool.
abbrev pub typed_args : Fields → List (Text × Json)
typed_args end = []
typed_args (field k (str t) d) = (k, str t) ∷ typed_args d
typed_args (field k (int z) d) = (k, int z) ∷ typed_args d
typed_args (field k (float x) d) = (k, float x) ∷ typed_args d
typed_args (field k (boolean b) d) = (k, boolean b) ∷ typed_args d
typed_args (field k v d) = typed_args d

abbrev pub function_of : Option Json → Text
function_of (some (str t)) = t
function_of v = []

abbrev pub arguments_of : Option Json → List (Text × Json)
arguments_of (some (dict d)) = typed_args d
arguments_of v = []

abbrev pub calls_of : Items → List AtifToolCall
calls_of nil = []
calls_of (cons (dict d) items) =
    record {
      function_name = function_of (get d (codes "function_name"));
      arguments = arguments_of (get d (codes "arguments"));
    }
    ∷ calls_of items
calls_of (cons v items) = calls_of items

-- `_parse_tool_calls`
unfoldable pub parse_tool_calls : Option Json → List AtifToolCall
parse_tool_calls (some (list items)) = calls_of items
parse_tool_calls v = []

-- `str(entry.get("message", "") or "")`, and the like of `finished_at`.
abbrev pub text_if_true : Builtins → Option Json → Text
text_if_true py none = []
text_if_true py (some v) = if json_bool v then json_text py v else []

abbrev pub bool_of : Option Json → Bool
bool_of none = false
bool_of (some v) = json_bool v

abbrev pub error_of : Builtins → Option Json → Option Text
error_of py none = none
error_of py (some v) = if json_bool v then some (json_text py v) else none

unfoldable pub entry_to_step : Builtins → Fields → Raises AtifStep
unfolding parse_metrics parse_observation parse_tool_calls
entry_to_step py entry = do
  metrics ← parse_metrics py (get entry (codes "metrics"))
  returns (record {
    step_id = text_or py [] (get entry (codes "step_id"));
    timestamp = text_or py [] (get entry (codes "timestamp"));
    source = text_or py [] (get entry (codes "source"));
    message = text_if_true py (get entry (codes "message"));
    tool_calls = parse_tool_calls (get entry (codes "tool_calls"));
    terminal_output = parse_observation (get entry (codes "observation"));
    metrics = metrics;
    is_copied_context = bool_of (get entry (codes "is_copied_context"));
    error = error_of py (get entry (codes "error"));
    model_name = [];
    reasoning_content = none;
  })

-- The loop of `_load_trajectory`: blank lines, what is no JSON and what is no dict are passed over.
abbrev pub steps_of : Builtins → List Text → Raises (List AtifStep)
steps_of py [] = returns []
steps_of py (line ∷ lines) =
    let rest = steps_of py lines in
    if nonempty (strip line)
    then (elim (py.loads (strip line)) [
      | loaded (dict entry) ↦
          entry_to_step py entry >>= λ step. rest >>= λ steps. returns (step ∷ steps)
      | _ ↦ rest
    ])
    else rest

unfoldable pub load_trajectory : Builtins → RunDir → Raises (List AtifStep)
load_trajectory py d = elim d.trajectory [ none ↦ returns [] | some t ↦ steps_of py (splitlines t) ]

-- `_load_run_meta`, with the path of run.json.
unfoldable pub load_run_meta : Builtins → Text → RunDir → Checked Fields
unfolding require_dict
load_run_meta py path d = elim d.run_json [
  | none ↦ err (parse_error (codes "run.json") (codes "missing") path)
  | some t ↦ elim (py.loads t) [
    | rejected m ↦ err (parse_error (codes "run.json") (codes "invalid JSON: " ++ m) path)
    | loaded v ↦ require_dict py v (codes "run.json") path
  ]
]

abbrev pub atif_run : Builtins → Text → Fields → List AtifStep → AtifRun
atif_run py run_id meta steps = record {
  schema_version = codes "1.6";
  run_id = text_or py run_id (get meta (codes "run_id"));
  session_id = text_or py [] (get meta (codes "claude_session_id"));
  instruction = text_or py [] (get meta (codes "instruction"));
  started_at = text_or py [] (get meta (codes "started_at"));
  finished_at = text_if_true py (get meta (codes "finished_at"));
  status = text_or py [] (get meta (codes "status"));
  steps = steps;
}

-- `export_run`, with the path of the run directory, and the directory if there is one.
unfoldable pub export_run : Builtins → Text → Text → Option RunDir → Raises (Checked AtifRun)
export_run py run_id path none =
    returns (err (parse_error (codes "run_dir") (codes "not a directory: " ++ path) path))
export_run py run_id path (some d) = elim (load_run_meta py (path ++ codes "/run.json") d) [
  | err e ↦ returns (err e)
  | ok meta ↦ load_trajectory py d >>= λ steps. returns (ok (atif_run py run_id meta steps))
]
