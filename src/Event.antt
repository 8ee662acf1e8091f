-- ===== src/Event.antt =====
-- events.py: what the shell reports to the core; commands.py: what the core asks of the shell;
-- transitions.py; and the job of summarize_worker.py that a command carries.
use termiclaw.Prelude.{Text, List, Option, Bool}
use termiclaw.Float.{Float}
use termiclaw.Errors.{PlannerError, ContainerError, SummarizationError, ArtifactRefreshError}
use termiclaw.Model.{ParseResult, PlannerUsage, StepRecord}
use termiclaw.State.{State}

pub data Event : Type 0 where
  loop_tick : (summarize_ready session_alive : Bool) → Event
  observation_captured : (text next_buffer : Text) → Event
  planner_responded : ParseResult → PlannerUsage → Event
  planner_failed : PlannerError → Event
  command_acked : (blocked_ok : Bool) → Event
  send_keys_failed : ContainerError → Event
  summarization_done : (summary qa_context : Text) → Event
  summarization_failed : SummarizationError → Event
  artifacts_refreshed : (trigger : Text) → Event
  artifacts_refresh_failed : ArtifactRefreshError → Event
  step_logged : StepRecord → Event
  session_died : Event

pub record SummarizationJob : Type 0 where
  pub instruction : Text
  pub recent_text : Text
  pub full_text : Text
  pub visible_screen : Text

pub data Command : Type 0 where
  observe : Command
  send_keys : (keystrokes : Text) (max_seconds : Float) → Command
  force_interrupt : (reason : Text) → Command
  query_planner :
      (prompt : Text) (first_call : Bool) (resume_parent : Option Text) (fork_session : Bool)
      → Command
  submit_summarization : SummarizationJob → Command
  refresh_artifacts : (trigger : Text) → Command
  log_step : StepRecord → PlannerUsage → Command

pub record Transition : Type 0 where
  pub state : State
  pub commands : List Command
