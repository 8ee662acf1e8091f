-- ===== src/Agent.antt =====
-- agent.py: the loop that drives `decide` and `apply`, on fuel for the commands applied. `none` is
-- fuel that ran out: the source has no such bound.
pub mod Drive
pub mod Pump
pub mod Rows
pub mod Keeps
pub mod Ending
pub mod Run
pub mod Starved
use termiclaw.Prelude.{
  ℕ, zero, suc, Text, List, [], ◌∷◌, ◌++◌, Option, none, some, Bool, true, false, ◌&&◌, take, codes,
  if◌then◌else◌, pos,
}
use termiclaw.Errors.{
  Exception, Raises, returns, raises, Result, ok, err, SummarizationError, keyboard_interrupt,
}
use termiclaw.Python.{Builtins}
use termiclaw.Model.{Config}
use termiclaw.State.{
  State, RunStatus, active, failed, cancelled, is_active, with_status, fresh_state, ForkContext,
}
use termiclaw.Event.{
  Event, loop_tick, summarization_done, summarization_failed, Command, Transition,
}
use termiclaw.Action.{Action, pure, lift, ◌>>=◌}
use termiclaw.Ports.{Ports, SummarizationComplete}
use termiclaw.Decide.{DecideEffects, decide}
use termiclaw.Shell.{apply}

unfoldable pub event_from_poll : Result SummarizationComplete SummarizationError → Event
event_from_poll (ok done) = summarization_done done.summary done.qa_context
event_from_poll (err e) = summarization_failed e

-- The fork context of a run with a parent.
unfoldable pub fork_of : Option State → Option ForkContext
fork_of none = none
fork_of (some parent) = some (record {
  parent_run_id = parent.run_id;
  forked_at_step = parent.current_step;
  resume_parent_session = parent.claude_session_id;
})

-- The state that `run` begins with. `run_id` and `session_id` are the two fresh UUIDs.
unfoldable pub initial_state : Config → Text → Text → Text → Option State → State
unfolding fork_of
initial_state config run_id session_id now parent =
    let fresh = fresh_state run_id config.instruction (codes "termiclaw-" ++ take 8 run_id) now in
    record fresh {
      max_turns = config.max_turns;
      claude_session_id = session_id;
      fork = fork_of parent;
    }

-- How far an action on fuel got: the value or exception, and the world, or out of fuel.
abbrev pub Fueled : Type 0 → Type 0 → Type 0
Fueled W A = Option (Raises A × W)

-- What every call of the loop is given.
pub record Setting (W : Type 0) : Type 0 where
  pub py : Builtins
  pub ports : Ports W
  pub config : Config
  pub effects : DecideEffects
  pub run_dir : Text

-- The queue after a command was applied and its event decided.
unfoldable pub extended : RunStatus → List Command → List Command → List Command
extended status pending new = if is_active status then pending ++ new else pending

-- What follows a fueled computation.
abbrev pub continue_fueled : {W A B : Type 0} → Fueled W A → (A → W → Fueled W B) → Fueled W B
continue_fueled none f = none
continue_fueled (some (raises x, w)) f = some (raises x, w)
continue_fueled (some (returns a, w)) f = f a w

module _ {W : Type 0} (c : Setting W) where
  -- One round of the loop: the command is applied, and its event decided.
  unfoldable pub step : State → ℕ → Command → Action W (Transition × ℕ)
  step s n cmd = do
    event ← apply c.ports c.py cmd s c.run_dir c.config
    lift (decide c.py s event c.config c.effects n)

  -- The `while pending` loop of `_drive`.
  unfoldable pub drive_loop : ℕ → State → ℕ → List Command → W → Fueled W (State × ℕ)
  unfolding extended
  drive_loop zero s n [] w = some (returns (s, n), w)
  drive_loop zero s n (cmd ∷ pending) w = none
  drive_loop (suc fuel) s n [] w = some (returns (s, n), w)
  drive_loop (suc fuel) s n (cmd ∷ pending) w = continue_fueled (some (step s n cmd w)) λ sub w'.
      drive_loop fuel sub.0.state sub.1 (extended s.status pending sub.0.commands)
        (c.ports.hold sub.0.state w')

  -- `_drive`
  unfoldable pub drive : ℕ → State → ℕ → Event → W → Fueled W (State × ℕ)
  drive fuel s n event w =
      continue_fueled (some (decide c.py s event c.config c.effects n, w))
        λ t w'. drive_loop fuel t.0.state t.1 t.0.commands (c.ports.hold t.0.state w')

  -- The event of a turn: a polled result, or a tick with the two signals.
  tick_or_poll : Bool → Option (Result SummarizationComplete SummarizationError) → Action W Event
  unfolding event_from_poll
  tick_or_poll alive (some polled) = pure (event_from_poll polled)
  tick_or_poll alive none = do idle ← c.ports.summarize.idle; pure (loop_tick (idle && alive) alive)

  unfoldable pub turn_event : State → Action W Event
  unfolding tick_or_poll
  turn_event s = do
    alive ← c.ports.container.is_session_alive s.container_id s.tmux_session
    polled ← c.ports.summarize.poll
    tick_or_poll alive polled

  -- One round of the `for` loop up to its test of the status.
  unfoldable pub turn : ℕ → State → ℕ → W → Fueled W (State × ℕ)
  turn fuel s n w =
      continue_fueled (some (turn_event s (c.ports.hold s w))) λ event w'. drive fuel s n event w'

  -- `_run_turns`, on the turns left; every drive has the same fuel.
  unfoldable pub run_turns : ℕ → ℕ → State → ℕ → W → Fueled W (State × ℕ)
  run_turns zero fuel s n w = some (returns (with_status s failed, n), w)
  run_turns (suc turns) fuel s n w = continue_fueled (turn fuel s n w) λ sub w'.
      let next = run_turns turns fuel sub.0 sub.1 w' in
      if is_active sub.0.status then next else some (returns sub, w')
