-- ===== src/Database/Bind.antt =====
-- db.py: the statements that write, with what they raise: a parameter that cannot be bound, and NULL
-- in a column that is NOT NULL.
use termiclaw.Prelude.{
  ℕ, ℤ, pos, negsuc, leb_ℤ, Text, text_eq, List, [], ◌∷◌, ◌++◌, Option, none, some, Bool, true,
  false, ◌&&◌, ◌||◌, if◌then◌else◌,
}
use termiclaw.Float.{Float, nan}
use termiclaw.Errors.{Raises, returns, raises, unicode_error, overflow, integrity_error}
use termiclaw.Container.{has_surrogate}
use termiclaw.Model.{StepRecord, ParsedCommand}
use termiclaw.State.{State, status_text}
use termiclaw.Database.{
  Db, RunRow, Ending, Spent, parent_of, forked_at, insert_run, update_run, prompt_tokens_of,
  replaced, step_row, command_row,
}

-- A parameter of a statement.
pub data Param : Type 0 where
  text : Text → Param
  number : ℤ → Param
  real : Float → Param
  null : Param

-- `2 ^ 63 - 1`, and the numbers of 64 bits.
abbrev pub max_int64 : ℕ
max_int64 = 9_223_372_036_854_775_807

abbrev pub fits : ℤ → Bool
fits z = leb_ℤ (negsuc max_int64) z && leb_ℤ z (pos max_int64)

abbrev pub bind_one : Param → Raises (Unit {0})
bind_one (text t) = if has_surrogate t then raises unicode_error else returns tt
bind_one (number z) = if fits z then returns tt else raises overflow
bind_one p = returns tt

-- The parameters, in their order.
unfoldable pub bind : List Param → Raises (Unit {0})
bind [] = returns tt
bind (p ∷ ps) = elim (bind_one p) [ raises x ↦ raises x | returns _ ↦ bind ps ]

abbrev pub optional : Option Text → Param
optional none = null
optional (some t) = text t

abbrev pub run_params : State → List Param
run_params state =
    text state.run_id
    ∷ text state.instruction
    ∷ text (status_text state.status)
    ∷ text state.started_at
    ∷ text state.tmux_session
    ∷ optional (parent_of state.fork)
    ∷ (elim (forked_at state.fork) [ none ↦ null | some n ↦ number (pos n) ])
    ∷ text state.claude_session_id
    ∷ text state.container_id
    ∷ []

abbrev pub ended_params : State → Ending → List Param
ended_params state e =
    text (status_text state.status)
    ∷ text e.finished_at
    ∷ text e.termination_reason
    ∷ number (pos state.current_step)
    ∷ number e.total_prompt_tokens
    ∷ number e.total_input_tokens
    ∷ number e.total_output_tokens
    ∷ real e.total_cost_usd
    ∷ number (pos state.stall.nudges_sent)
    ∷ number (pos state.stall.forced_interrupts)
    ∷ text state.run_id
    ∷ []

abbrev pub step_params : Text → StepRecord → Spent → List Param
step_params run_id step x =
    text step.step_id
    ∷ text run_id
    ∷ number (pos x.step_index)
    ∷ text step.timestamp
    ∷ text step.source
    ∷ optional step.analysis
    ∷ text step.observation
    ∷ optional step.error
    ∷ number (pos (if step.task_complete then 1 else 0))
    ∷ number (prompt_tokens_of (pos 0) step.metrics)
    ∷ number x.input_tokens
    ∷ number x.output_tokens
    ∷ real x.cost_usd
    ∷ number x.planner_duration_ms
    ∷ number (pos (if step.is_copied_context then 1 else 0))
    ∷ []

-- `insert_run`
unfoldable pub execute_insert_run : Db → State → Raises (Unit {0}) × Db
execute_insert_run db state = elim (bind (run_params state)) [
  | raises x ↦ (raises x, db)
  | returns _ ↦ (returns tt, insert_run db state)
]

-- A row that the UPDATE finds.
abbrev pub has_run : Text → List RunRow → Bool
has_run id [] = false
has_run id (r ∷ rs) = text_eq r.run_id id || has_run id rs

abbrev pub is_nan : Float → Bool
is_nan nan = true
is_nan x = false

-- `update_run`: a NaN in `total_cost_usd` is NULL.
unfoldable pub execute_update_run : Db → State → Ending → Raises (Unit {0}) × Db
execute_update_run db state e = elim (bind (ended_params state e)) [
  | raises x ↦ (raises x, db)
  | returns _ ↦
      if is_nan e.total_cost_usd && has_run state.run_id db.runs
      then (raises integrity_error, db)
      else (returns tt, update_run db state e)
]

-- The INSERT of a command: a NaN duration is NULL.
unfoldable pub insertable : Text → ParsedCommand → Raises (Unit {0})
insertable step_id cmd = elim (bind (text step_id ∷ text cmd.keystrokes ∷ real cmd.duration ∷ [])) [
  | raises x ↦ raises x
  | returns _ ↦ if is_nan cmd.duration then raises integrity_error else returns tt
]

-- The loop over the commands; the rows before a raise are there for the connection.
abbrev pub insert_commands : Text → List ParsedCommand → Db → Raises (Unit {0}) × Db
insert_commands step_id [] db = (returns tt, db)
insert_commands step_id (cmd ∷ cmds) db = elim (insertable step_id cmd) [
  | raises x ↦ (raises x, db)
  | returns _ ↦
      insert_commands step_id cmds
        (record db { commands = db.commands ++ command_row step_id cmd ∷ [] })
]

unfoldable pub insert_step : Db → Text → StepRecord → Spent → Raises (Unit {0}) × Db
insert_step db run_id step x = elim (bind (step_params run_id step x)) [
  | raises y ↦ (raises y, db)
  | returns _ ↦
      insert_commands step.step_id step.commands
        (record db { steps = replaced (λ r. r.step_id) (step_row run_id step x) db.steps })
]
