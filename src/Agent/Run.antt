-- ===== src/Agent/Run.antt =====
-- agent.py: a whole run, from the image to the teardown. The log, the run's directory and the
-- connection of the database are set up by code that is not modelled.
use termiclaw.Prelude.{
  ℕ, pos, Text, codes, [], Option, none, some, Bool, true, false, not, ◌==◌, nonempty,
  if◌then◌else◌,
}
use termiclaw.Float.{finite}
use termiclaw.Errors.{
  Exception, planner, container, summarization, artifact_refresh, database, mcts,
  keyboard_interrupt, called_process_error, Raises, returns, raises, Result, ok, err, PlannerError,
  ContainerError,
}
use termiclaw.Python.{Builtins, dict, Loaded, loaded, get, json_text}
use termiclaw.State.{State, failed, cancelled, status_text, with_status}
use termiclaw.Core.{termination_reason}
use termiclaw.Action.{Action, pure, lift, ◌>>=◌, ◌>>◌}
use termiclaw.Agent.{Setting, Fueled, continue_fueled, initial_state, run_turns}

-- What a run draws from the clock and from uuid4.
pub record Drawn : Type 0 where
  pub run_id : Text
  pub session_id : Text
  pub started : Text
  pub finished : Text

-- `TermiclawError` and its subclasses.
abbrev pub is_termiclaw_error : Exception → Bool
is_termiclaw_error (planner e) = true
is_termiclaw_error (container e) = true
is_termiclaw_error (summarization e) = true
is_termiclaw_error (artifact_refresh e) = true
is_termiclaw_error (database e) = true
is_termiclaw_error (mcts e) = true
is_termiclaw_error _ = false

-- `str(envelope.get("result", ""))` of an object, the raw text of what is no JSON, else nothing.
snapshot_text : Builtins → Text → Loaded → Text
snapshot_text py raw (loaded (dict d)) = elim (get d (codes "result")) [
  | none ↦ []
  | some v ↦ json_text py v
]
snapshot_text py raw (loaded v) = []
snapshot_text py raw _ = raw

snapshot_answer : Builtins → Result Text PlannerError → Raises Text
unfolding snapshot_text
snapshot_answer py (err e) = raises (planner e)
snapshot_answer py (ok raw) = returns (snapshot_text py raw (py.loads raw))

-- `except TermiclawError`, where the error is logged.
abbrev pub logged_only : Raises (Unit {0}) → Raises (Unit {0})
logged_only (returns u) = returns u
logged_only (raises x) = if is_termiclaw_error x then returns tt else raises x

module _ {W : Type 0} (c : Setting W) where
  snapshot_query : State → Text → Action W Text
  unfolding snapshot_answer
  snapshot_query state prompt = do
    result ←
        c.ports.planner.query prompt c.config.planner_timeout 1 state.claude_session_id false none
          false
    lift (snapshot_answer c.py result)

  refresh_if : Bool → State → Action W (Unit {0})
  unfolding snapshot_query
  refresh_if false state w = (returns tt, w)
  refresh_if true state w =
      let (r, v) = c.ports.artifacts.refresh state c.run_dir (snapshot_query state) w in
      (logged_only r, v)

  snapshot_alive : State → Action W (Unit {0})
  unfolding refresh_if
  snapshot_alive state = do
    alive ← c.ports.container.is_session_alive state.container_id state.tmux_session
    refresh_if alive state

  -- `_final_artifact_snapshot`, which returns the state that it is given.
  final_artifact_snapshot : State → Action W (Unit {0})
  unfolding snapshot_alive
  final_artifact_snapshot state = if state.current_step == 0 then pure tt else snapshot_alive state

  abbrev destroy_if : Bool → State → Action W (Unit {0})
  destroy_if true state = c.ports.container.destroy_container state.container_id
  destroy_if false state = pure tt

  -- The `finally` block of `run`.
  unfoldable pub finish : Drawn → State → Action W (Unit {0})
  unfolding final_artifact_snapshot
  finish drawn state = do
    let reason = termination_reason (status_text state.status)
    c.ports.summarize.shutdown
    final_artifact_snapshot state
    c.ports.persistence.write_run_metadata c.run_dir state drawn.finished reason
    usage ← c.ports.persistence.aggregate_usage state.run_id
    c.ports.persistence.update_run state drawn.finished reason state.total_prompt_tokens
        usage.input_tokens usage.output_tokens usage.cost_usd
    destroy_if (not c.config.keep_session) state

  -- A state returned after its last actions, if they do not raise.
  unfoldable pub finished_with : State → Raises (Unit {0}) × W → Raises State × W
  finished_with state (returns u, w) = (returns state, w)
  finished_with state (raises y, w) = (raises y, w)

  -- The actions of `_provision_failure` on the failed state.
  unfoldable pub tear_down : Drawn → State → Action W (Unit {0})
  tear_down drawn state = do
    let reason = codes "container_provision_failed"
    c.ports.persistence.write_run_metadata c.run_dir state drawn.finished reason
    c.ports.persistence.update_run state drawn.finished reason state.total_prompt_tokens (pos 0)
        (pos 0) (finite (pos 0))
    c.ports.summarize.shutdown
    destroy_if (nonempty state.container_id) state

  -- `_provision_failure`
  unfoldable pub provision_failure : Drawn → State → Action W State
  unfolding finished_with tear_down
  provision_failure drawn before w =
      let state = with_status before failed in finished_with state (tear_down drawn state w)

  -- The end of a run on an exception: the `finally` block, then the exception again.
  unfoldable pub reraised : Exception → Raises (Unit {0}) × W → Raises State × W
  reraised x (returns u, w) = (raises x, w)
  reraised x (raises y, w) = (raises y, w)

  -- The `try` block's outcome. Where it raised, `state` is still the one from before the turns.
  unfoldable pub closed : Drawn → State → Fueled W (State × ℕ) → Fueled W State
  unfolding finish reraised finished_with
  closed drawn state none = none
  closed drawn state (some (returns (t, n), w)) = some (finished_with t (finish drawn t w))
  closed drawn state (some (raises keyboard_interrupt, w)) =
      let stopped = with_status state cancelled in
      some (finished_with stopped (finish drawn stopped w))
  closed drawn state (some (raises x, w)) = some (reraised x (finish drawn state w))

  -- The row of the run, then the turns.
  unfoldable pub begun : ℕ → Drawn → State → W → Fueled W State
  unfolding closed
  begun fuel drawn state w =
      continue_fueled (some (c.ports.persistence.insert_run state w))
        λ u w'. closed drawn state (run_turns c state.max_turns fuel state 0 w')

  -- The session is there, or `except subprocess.CalledProcessError`.
  unfoldable pub sessioned : ℕ → Drawn → State → Raises (Unit {0}) × W → Fueled W State
  unfolding begun provision_failure
  sessioned fuel drawn state (returns u, w) = begun fuel drawn state w
  sessioned fuel drawn state (raises called_process_error, w) =
      some (provision_failure drawn state w)
  sessioned fuel drawn state (raises x, w) = some (raises x, w)

  unfoldable pub provisioned : ℕ → Drawn → State → Result Text ContainerError → W → Fueled W State
  unfolding sessioned provision_failure
  provisioned fuel drawn state (err e) w = some (provision_failure drawn state w)
  provisioned fuel drawn state (ok container_id) w =
      let contained = record state { container_id = container_id } in
      sessioned fuel drawn contained (
        c.ports.container.provision_session container_id contained.tmux_session c.config.pane_width
          c.config.pane_height c.config.history_limit (c.ports.hold contained w))

  unfoldable pub imaged : ℕ → Drawn → State → Result Text ContainerError → W → Fueled W State
  unfolding provisioned provision_failure
  imaged fuel drawn state (err e) w = some (provision_failure drawn state w)
  imaged fuel drawn state (ok image) w =
      continue_fueled (some (c.ports.container.provision_container image c.config.docker_network w))
        (provisioned fuel drawn state)

  -- `run`
  unfoldable pub run : ℕ → Drawn → Option State → W → Fueled W State
  unfolding imaged
  run fuel drawn parent w =
      let state = initial_state c.config drawn.run_id drawn.session_id drawn.started parent in
      continue_fueled (some (c.ports.container.ensure_image (c.ports.hold state w)))
        (imaged fuel drawn state)
