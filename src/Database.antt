-- ===== src/Database.antt =====
-- db.py: the tables of runs, steps and commands as lists of rows, and the statements on them. A
-- disk that fails is not modelled.
pub mod Bind
pub mod Query
pub mod Search
pub mod Schema
pub mod Keyed
pub mod Store
pub mod Runs
pub mod Usage
pub mod Steps
pub mod Reports
use termiclaw.Prelude.{
  ℕ, zero, suc, ◌+◌, ℤ, pos, ◌+ℤ◌, Text, codes, text_eq, List, [], ◌∷◌, ◌++◌, map, Option, none,
  some, Bool, true, false, not, ◌&&◌, ◌||◌, ◌==◌, leb, if◌then◌else◌,
}
use termiclaw.Float.{Float, nan, finite}
use termiclaw.Errors.{Raises, returns, raises}
use termiclaw.Model.{RunInfo, StepRecord, ParsedCommand, MetricValue}
use termiclaw.State.{State, ForkContext, status_text}

-- A row of `runs`; a column that may be NULL is an option.
pub record RunRow : Type 0 where
  pub run_id : Text
  pub instruction : Text
  pub status : Text
  pub started_at : Text
  pub finished_at : Option Text
  pub tmux_session : Text
  pub termination_reason : Option Text
  pub total_steps : ℕ
  pub total_prompt_tokens : ℤ
  pub total_input_tokens : ℤ
  pub total_output_tokens : ℤ
  pub total_cost_usd : Float
  pub total_nudges : ℕ
  pub total_forced_interrupts : ℕ
  pub parent_run_id : Option Text
  pub forked_at_step : Option ℕ
  pub claude_session_id : Text
  pub container_id : Text

pub record StepRow : Type 0 where
  pub step_id : Text
  pub run_id : Text
  pub step_index : ℕ
  pub timestamp : Text
  pub source : Text
  pub analysis : Option Text
  pub observation : Text
  pub error : Option Text
  pub task_complete : Bool
  pub prompt_tokens : ℤ
  pub input_tokens : ℤ
  pub output_tokens : ℤ
  pub cost_usd : Float
  pub planner_duration_ms : ℤ
  pub is_copied_context : Bool

pub record CommandRow : Type 0 where
  pub step_id : Text
  pub keystrokes : Text
  pub duration : Float

pub record Db : Type 0 where
  pub runs : List RunRow
  pub steps : List StepRow
  pub commands : List CommandRow

-- `INSERT OR REPLACE` under a primary key: a row with the key goes, and the new one is last.
abbrev pub without : {R : Type 0} → (R → Text) → Text → List R → List R
without key id [] = []
without key id (r ∷ rs) =
    let rest = without key id rs in if text_eq (key r) id then rest else r ∷ rest

abbrev pub replaced : {R : Type 0} → (R → Text) → R → List R → List R
replaced key row rows = without key (key row) rows ++ row ∷ []

abbrev pub parent_of : Option ForkContext → Option Text
parent_of none = none
parent_of (some f) = some f.parent_run_id

abbrev pub forked_at : Option ForkContext → Option ℕ
forked_at none = none
forked_at (some f) = some f.forked_at_step

-- The row of a new run: the columns that are not named have their defaults.
abbrev pub run_row : State → RunRow
run_row state = record {
  run_id = state.run_id;
  instruction = state.instruction;
  status = status_text state.status;
  started_at = state.started_at;
  finished_at = none;
  tmux_session = state.tmux_session;
  termination_reason = none;
  total_steps = 0;
  total_prompt_tokens = pos 0;
  total_input_tokens = pos 0;
  total_output_tokens = pos 0;
  total_cost_usd = finite (pos 0);
  total_nudges = 0;
  total_forced_interrupts = 0;
  parent_run_id = parent_of state.fork;
  forked_at_step = forked_at state.fork;
  claude_session_id = state.claude_session_id;
  container_id = state.container_id;
}

-- The statement, where it does not raise.
unfoldable pub insert_run : Db → State → Db
insert_run db state = record db { runs = replaced (λ r. r.run_id) (run_row state) db.runs }

-- What `update_run` is called with beside the state.
pub record Ending : Type 0 where
  pub finished_at : Text
  pub termination_reason : Text
  pub total_prompt_tokens : ℤ
  pub total_input_tokens : ℤ
  pub total_output_tokens : ℤ
  pub total_cost_usd : Float

-- The columns that the UPDATE sets.
abbrev pub ended_row : State → Ending → RunRow → RunRow
ended_row state e r = record r {
  status = status_text state.status;
  finished_at = some e.finished_at;
  termination_reason = some e.termination_reason;
  total_steps = state.current_step;
  total_prompt_tokens = e.total_prompt_tokens;
  total_input_tokens = e.total_input_tokens;
  total_output_tokens = e.total_output_tokens;
  total_cost_usd = e.total_cost_usd;
  total_nudges = state.stall.nudges_sent;
  total_forced_interrupts = state.stall.forced_interrupts;
}

abbrev pub updated_rows : State → Ending → List RunRow → List RunRow
updated_rows state e [] = []
updated_rows state e (r ∷ rs) =
    (if text_eq r.run_id state.run_id then ended_row state e r else r) ∷ updated_rows state e rs

-- The statement, where it does not raise.
unfoldable pub update_run : Db → State → Ending → Db
update_run db state e = record db { runs = updated_rows state e db.runs }

-- The loop over the metrics: the last int of that name counts.
abbrev pub prompt_tokens_of : ℤ → List (Text × MetricValue) → ℤ
prompt_tokens_of found [] = found
prompt_tokens_of found ((k, MetricValue.int z) ∷ rest) =
    prompt_tokens_of (if text_eq k (codes "prompt_tokens") then z else found) rest
prompt_tokens_of found ((k, v) ∷ rest) = prompt_tokens_of found rest

abbrev pub command_row : Text → ParsedCommand → CommandRow
command_row id cmd = record { step_id = id; keystrokes = cmd.keystrokes; duration = cmd.duration }

-- What `insert_step` is called with beside the step.
pub record Spent : Type 0 where
  pub step_index : ℕ
  pub input_tokens : ℤ
  pub output_tokens : ℤ
  pub cost_usd : Float
  pub planner_duration_ms : ℤ

-- NaN is stored as NULL, in whose place OR REPLACE takes the default of the column.
abbrev pub stored_cost : Float → Float
stored_cost nan = finite (pos 0)
stored_cost x = x

abbrev pub step_row : Text → StepRecord → Spent → StepRow
step_row run_id step x = record {
  step_id = step.step_id;
  run_id = run_id;
  step_index = x.step_index;
  timestamp = step.timestamp;
  source = step.source;
  analysis = step.analysis;
  observation = step.observation;
  error = step.error;
  task_complete = step.task_complete;
  prompt_tokens = prompt_tokens_of (pos 0) step.metrics;
  input_tokens = x.input_tokens;
  output_tokens = x.output_tokens;
  cost_usd = stored_cost x.cost_usd;
  planner_duration_ms = x.planner_duration_ms;
  is_copied_context = step.is_copied_context;
}

-- The statements of insert_step, where none raises.
unfoldable pub stored_step : Db → Text → StepRecord → Spent → Db
stored_step db run_id step x = record db {
  steps = replaced (λ r. r.step_id) (step_row run_id step x) db.steps;
  commands = db.commands ++ map (command_row step.step_id) step.commands;
}
