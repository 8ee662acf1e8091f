-- ===== src/Decide.antt =====
-- decide.py: the pure transition of the run. An exception of Python in a handler is `raises`.
-- The two sources of `DecideEffects` are callables whose k-th call gives their k-th value; every
-- step record calls each of them once, so one count of the calls made serves both.
pub mod Calm
pub mod Effect
pub mod History
pub mod Session
pub mod Starved
pub mod Total
pub mod Status
use termiclaw.Prelude.{
  ℕ, ◌+◌, ℤ, pos, ◌+ℤ◌, Text, codes, decimal, or_text, nonempty, List, [], ◌∷◌, ◌++◌, map, Option,
  none, some, is_some, Bool, true, false, not, ◌&&◌, if◌then◌else◌, ltb, leb, length, tail_slice,
}
use termiclaw.Float.{Float}
use termiclaw.Errors.{Raises, returns, raises, PlannerError, planner_error_text}
use termiclaw.Python.{Builtins}
use termiclaw.Model.{ParsedCommand, ParseResult, StepRecord, PlannerUsage, Config, MetricValue}
use termiclaw.State.{
  State, ForkContext, RunStatus, succeeded, failed, with_step, with_status, with_summarization,
  default_max_recent,
}
use termiclaw.Event.{
  Event, loop_tick, observation_captured, planner_responded, planner_failed, command_acked,
  send_keys_failed, summarization_done, summarization_failed, artifacts_refreshed,
  artifacts_refresh_failed, step_logged, session_died, Command, observe, send_keys, query_planner,
  submit_summarization, refresh_artifacts, log_step, SummarizationJob, Transition,
}
use termiclaw.Core.{
  should_summarize, artifact_refresh_trigger, format_blocking_timeout_notice,
  format_completion_confirmation_prompt, clamp_command_wait,
}
use termiclaw.Summarizer.{format_steps_text}
use termiclaw.Planner.{build_prompt, prompt_version}

-- The values of the k-th call of the two callables.
pub record DecideEffects : Type 0 where
  pub new_id : ℕ → Text
  pub now : ℕ → Text

abbrev pub zero_usage : PlannerUsage
zero_usage = record {
  input_tokens = pos 0;
  cache_read_input_tokens = pos 0;
  output_tokens = pos 0;
  cost_usd = Float.finite (pos 0);
  duration_ms = pos 0;
  claude_session_id = [];
}

-- The defaults of a `StepRecord` beside its four required fields.
abbrev pub plain_step : DecideEffects → ℕ → Text → Text → StepRecord
plain_step effects calls source observation = record {
  step_id = effects.new_id calls;
  timestamp = effects.now calls;
  source = source;
  observation = observation;
  analysis = none;
  plan = none;
  commands = [];
  task_complete = false;
  error = none;
  metrics = [];
  is_copied_context = false;
}

abbrev pub log_agent_step :
    State → Text → ParseResult → DecideEffects → ℕ → (task_complete : Bool) → StepRecord
log_agent_step state observation parsed effects calls task_complete = record {
  step_id = effects.new_id calls;
  timestamp = effects.now calls;
  source = codes "agent";
  observation = observation;
  analysis = some parsed.analysis;
  plan = some parsed.plan;
  commands = parsed.commands;
  task_complete = task_complete;
  error = none;
  metrics =
      (codes "prompt_tokens", MetricValue.int state.total_prompt_tokens)
      ∷ (codes "prompt_version", MetricValue.str prompt_version)
      ∷ [];
  is_copied_context = false;
}

abbrev pub log_error_step : Text → DecideEffects → ℕ → StepRecord
log_error_step message effects calls =
    let step = plain_step effects calls (codes "error") [] in record step { error = some message }

build_summarization_job : Builtins → State → SummarizationJob
build_summarization_job py state =
    let recent = format_steps_text py state.recent_steps in
    let recent_text =
      or_text recent (codes "[" ++ (decimal state.current_step ++ codes " steps completed]")) in
    record {
      instruction = state.instruction;
      recent_text = recent_text;
      full_text = recent_text;
      visible_screen = [];
    }

build_planner_prompt : State → Text → Text
build_planner_prompt state observation =
    build_prompt state.instruction (or_text observation (codes "Shell is ready.")) state.summary
      state.qa_context

-- What a transition hands on: itself, and the calls made so far.
abbrev pub Decided : Type 0
Decided = Raises (Transition × ℕ)

abbrev pub to : State → List Command → ℕ → Decided
to state commands calls = returns (record { state = state; commands = commands }, calls)

-- The rest of `_on_loop_tick`, once the trigger is known.
tick_commands : Builtins → State → Config → (summarize_ready : Bool) → List Command
unfolding build_summarization_job
tick_commands py state config ready =
    if ready && should_summarize state config
    then submit_summarization (build_summarization_job py state) ∷ observe ∷ []
    else observe ∷ []

after_trigger : Builtins → State → Config → Bool → ℕ → Raises Text → Decided
unfolding tick_commands
after_trigger py state config ready calls (raises e) = raises e
after_trigger py state config ready calls (returns []) =
    to state (tick_commands py state config ready) calls
after_trigger py state config ready calls (returns (c ∷ trigger)) =
    to state (refresh_artifacts (c ∷ trigger) ∷ []) calls

on_loop_tick : Builtins → State → Config → ℕ → (summarize_ready session_alive : Bool) → Decided
unfolding after_trigger
on_loop_tick py state config calls ready alive =
    if not alive
    then to (with_status state failed) [] calls
    else after_trigger py state config ready calls (artifact_refresh_trigger state config)

-- The prompt text after the timeout banner, if one is due.
banner_text : Builtins → State → Config → Text → Text
banner_text py state config text =
    if state.pending_blocking_timeout
    then format_blocking_timeout_notice py config ++ text
    else text

resume_parent_of : State → Option Text
resume_parent_of state = elim state.fork [
  | none ↦ none
  | some fork ↦ (if state.is_first_call then some fork.resume_parent_session else none)
]

on_observation : Builtins → State → Text → Text → Config → ℕ → Decided
unfolding banner_text resume_parent_of build_planner_prompt
on_observation py state text next_buffer config calls =
    let truncated_buffer =
      if ltb config.capture_tail_bytes (length next_buffer)
      then tail_slice config.capture_tail_bytes next_buffer
      else next_buffer in
    let shown = banner_text py state config text in
    let resume = resume_parent_of state in
    to
      (record state {
        previous_buffer = truncated_buffer;
        pending_blocking_timeout = false;
        last_observation = shown;
      })
      (query_planner (build_planner_prompt state shown) state.is_first_call resume (is_some resume)
        ∷ [])
      calls

handle_completion : State → ParseResult → PlannerUsage → DecideEffects → ℕ → Decided
handle_completion state parsed usage effects calls =
    if state.pending_completion
    then to (with_status (record state { last_observation = [] }) succeeded)
        (log_step
            (log_agent_step (record state { last_observation = [] }) state.last_observation parsed
              effects calls true)
            usage
          ∷ [])
        (calls + 1)
    else to (record state { pending_completion = true })
        (query_planner (format_completion_confirmation_prompt []) false none false ∷ []) calls

send_command : Config → ParsedCommand → Command
send_command config cmd =
    send_keys cmd.keystrokes (clamp_command_wait cmd config.blocking_max_seconds)

-- The first `replace` of `_on_planner_responded`.
after_response : State → PlannerUsage → State
after_response state usage = record state {
  total_prompt_tokens =
      state.total_prompt_tokens +ℤ usage.input_tokens +ℤ usage.cache_read_input_tokens;
  claude_session_id =
      if state.is_first_call && nonempty usage.claude_session_id
      then usage.claude_session_id
      else state.claude_session_id;
  is_first_call = false;
  fork = none;
  consecutive_planner_failures = 0;
}

-- Both ends of `_on_planner_responded` without completion: with no command the tuple before the
-- step is empty.
send_and_log : State → ParseResult → PlannerUsage → Config → DecideEffects → ℕ → Decided
unfolding send_command
send_and_log state parsed usage config effects calls =
    let after = record state { pending_completion = false; last_observation = [] } in
    to after
      (map (send_command config) parsed.commands
        ++ log_step (log_agent_step after state.last_observation parsed effects calls false) usage
          ∷ [])
      (calls + 1)

on_planner_responded : State → ParseResult → PlannerUsage → Config → DecideEffects → ℕ → Decided
unfolding after_response handle_completion send_and_log
on_planner_responded state parsed usage config effects calls =
    if parsed.task_complete
    then handle_completion (after_response state usage) parsed usage effects calls
    else send_and_log (after_response state usage) parsed usage config effects calls

abbrev pub max_consecutive_planner_failures : ℕ
max_consecutive_planner_failures = 3

on_planner_failed : Builtins → State → PlannerError → DecideEffects → ℕ → Decided
on_planner_failed py state error effects calls =
    let step =
      log_error_step (codes "Planner failed: " ++ planner_error_text py.str_float error) effects
        calls in
    let failures = state.consecutive_planner_failures + 1 in
    let new_state = record state {
      consecutive_planner_failures = failures;
      is_first_call = false;
    } in
    to
      (if leb max_consecutive_planner_failures failures
        then with_status new_state failed
        else new_state)
      (log_step step zero_usage ∷ []) (calls + 1)

on_command_acked : State → Bool → ℕ → Decided
on_command_acked state blocked_ok calls =
    to (record state { pending_blocking_timeout = not blocked_ok }) (observe ∷ []) calls

on_summarization_done : State → Text → Text → DecideEffects → ℕ → Decided
on_summarization_done state summary qa_context effects calls =
    let step =
      plain_step effects calls (codes "system") (codes "Summarization checkpoint created") in
    to (with_summarization state summary qa_context)
      (log_step (record step { is_copied_context = true }) zero_usage ∷ []) (calls + 1)

on_artifacts_refreshed : State → Text → DecideEffects → ℕ → Decided
on_artifacts_refreshed state trigger effects calls =
    to state
      (log_step
          (plain_step effects calls (codes "system")
            (codes "Artifacts refreshed (trigger=" ++ (trigger ++ codes ")")))
          zero_usage
        ∷ [])
      (calls + 1)

unfoldable pub decide : Builtins → State → Event → Config → DecideEffects → ℕ → Decided
unfolding on_loop_tick on_observation on_planner_responded on_planner_failed on_command_acked
    on_summarization_done on_artifacts_refreshed
decide py s (loop_tick ready alive) config effects n = on_loop_tick py s config n ready alive
decide py s (observation_captured text buf) config effects n = on_observation py s text buf config n
decide py s (planner_responded parsed usage) config effects n =
    on_planner_responded s parsed usage config effects n
decide py s (planner_failed error) config effects n = on_planner_failed py s error effects n
decide py s (command_acked ok) config effects n = on_command_acked s ok n
decide py s (send_keys_failed error) config effects n = to (with_status s failed) [] n
decide py s (summarization_done summary qa) config effects n =
    on_summarization_done s summary qa effects n
decide py s (summarization_failed error) config effects n = to (with_status s failed) [] n
decide py s (artifacts_refreshed trigger) config effects n =
    on_artifacts_refreshed s trigger effects n
decide py s (artifacts_refresh_failed error) config effects n = to (with_status s failed) [] n
decide py s (step_logged step) config effects n = to (with_step s step default_max_recent) [] n
decide py s session_died config effects n = to (with_status s failed) [] n
