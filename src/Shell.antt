-- ===== src/Shell.antt =====
-- shell.py: one command through the ports, and the event that it gives.
pub mod Rows
use termiclaw.Prelude.{ℕ, ℤ, Text, codes, Option, none, some, Bool, true, false, List, [], ◌∷◌}
use termiclaw.Float.{Float}
use termiclaw.Errors.{
  Exception, planner, container, artifact_refresh, Raises, returns, raises, Result, ok, err,
  PlannerError, planner_error, planner_error_text, ContainerError,
}
use termiclaw.Python.{
  Builtins, Json, null, boolean, int, float, str, list, dict, Loaded, loaded, rejected, get,
  json_text,
}
use termiclaw.Model.{ParseResult, PlannerUsage, StepRecord, Config}
use termiclaw.State.{State}
use termiclaw.Event.{
  Event, loop_tick, observation_captured, planner_responded, planner_failed, command_acked,
  send_keys_failed, artifacts_refreshed, artifacts_refresh_failed, step_logged, Command, observe,
  send_keys, force_interrupt, query_planner, submit_summarization, refresh_artifacts, log_step,
}
use termiclaw.Action.{Action, pure, raise, lift, ◌>>=◌, ◌>>◌}
use termiclaw.Ports.{Ports}

-- `envelope.get("result", raw)`, read as the artifact query function reads it.
result_or_raw : Builtins → Text → Option Json → Text
result_or_raw py raw none = raw
result_or_raw py raw (some null) = raw
result_or_raw py raw (some v) = json_text py v

unfoldable pub envelope_text : Builtins → Text → Loaded → Text
unfolding result_or_raw json_text
envelope_text py raw (loaded (dict d)) = result_or_raw py raw (get d (codes "result"))
envelope_text py raw _ = raw

module _ {W : Type 0} (ports : Ports W) where
  apply_observe : State → Action W Event
  apply_observe s = do
    captured ←
        ports.container.get_incremental_output s.container_id s.tmux_session s.previous_buffer
    pure (observation_captured captured.0 captured.1)

  -- `except ContainerError`
  unfoldable pub sent : Raises Bool → Raises Event
  sent (returns seen) = returns (command_acked seen)
  sent (raises (container e)) = returns (send_keys_failed e)
  sent (raises x) = raises x

  apply_send_keys : State → Text → Float → Config → Action W Event
  unfolding sent
  apply_send_keys s keystrokes max_seconds config w =
      let (r, w') =
        ports.container.send_and_wait_idle s.container_id s.tmux_session keystrokes max_seconds
          config.blocking_poll_interval config.max_command_length w in
      (sent r, w')

  unfoldable pub interrupted : Raises (Unit {0}) → Raises Event
  interrupted (returns _) = returns (command_acked true)
  interrupted (raises (container e)) = returns (send_keys_failed e)
  interrupted (raises x) = raises x

  apply_force_interrupt : State → Config → Action W Event
  unfolding interrupted
  apply_force_interrupt s config w =
      let (r, w') =
        ports.container.send_keys s.container_id s.tmux_session (codes "C-c")
          config.max_command_length w in
      (interrupted r, w')

  -- The response of a query, once its text is there.
  responded : Builtins → Text → Result ParseResult PlannerError → Raises Event
  responded py raw (err e) =
      returns (planner_failed (planner_error (planner_error_text py.str_float e)))
  responded py raw (ok parsed) = elim (ports.planner.extract_usage raw) [
    | raises x ↦ raises x
    | returns usage ↦ returns (planner_responded parsed usage)
  ]

  read_response : Builtins → Result Text PlannerError → Raises Event
  unfolding responded
  read_response py (err e) = returns (planner_failed e)
  read_response py (ok raw) = elim (ports.planner.parse_response raw) [
    | raises x ↦ raises x
    | returns parsed ↦ responded py raw parsed
  ]

  apply_query_planner :
      Builtins → State → Text → Config → Bool → Option Text → Bool → Action W Event
  unfolding read_response
  apply_query_planner py s prompt config first_call resume_parent fork_session = do
    result ←
        ports.planner.query prompt config.planner_timeout config.planner_retries s.claude_session_id
          first_call resume_parent fork_session
    lift (read_response py result)

  answer : Builtins → Result Text PlannerError → Raises Text
  unfolding envelope_text
  answer py (err e) = raises (planner e)
  answer py (ok raw) = returns (envelope_text py raw (py.loads raw))

  -- The `query_fn` that is handed to the artifacts.
  artifact_query : Builtins → State → Config → Text → Action W Text
  unfolding answer
  artifact_query py s config prompt = do
    result ←
        ports.planner.query prompt config.planner_timeout 1 s.claude_session_id false none false
    lift (answer py result)

  refreshed : Text → Raises (Unit {0}) → Raises Event
  refreshed trigger (returns _) = returns (artifacts_refreshed trigger)
  refreshed trigger (raises (artifact_refresh e)) = returns (artifacts_refresh_failed e)
  refreshed trigger (raises x) = raises x

  apply_refresh_artifacts : Builtins → State → Text → Text → Config → Action W Event
  unfolding artifact_query refreshed
  apply_refresh_artifacts py s run_dir trigger config w =
      let (r, w') = ports.artifacts.refresh s run_dir (artifact_query py s config) w in
      (refreshed trigger r, w')

  apply_log_step : State → Text → StepRecord → PlannerUsage → Action W Event
  apply_log_step s run_dir step usage = do
    ports.persistence.append_step run_dir step
    ports.persistence.insert_step s.run_id step s.current_step usage.input_tokens
        usage.output_tokens usage.cost_usd usage.duration_ms
    pure (step_logged step)

  unfoldable pub apply : Builtins → Command → State → Text → Config → Action W Event
  unfolding apply_observe apply_send_keys apply_force_interrupt apply_query_planner
      apply_refresh_artifacts apply_log_step
  apply py observe s run_dir config = apply_observe s
  apply py (send_keys keystrokes max_seconds) s run_dir config =
      apply_send_keys s keystrokes max_seconds config
  apply py (force_interrupt reason) s run_dir config = apply_force_interrupt s config
  apply py (query_planner prompt first_call resume_parent fork_session) s run_dir config =
      apply_query_planner py s prompt config first_call resume_parent fork_session
  apply py (submit_summarization job) s run_dir config = do
    ports.summarize.submit job
    pure (loop_tick false true)
  apply py (refresh_artifacts trigger) s run_dir config =
      apply_refresh_artifacts py s run_dir trigger config
  apply py (log_step step usage) s run_dir config = apply_log_step s run_dir step usage
