-- ===== src/Ports.antt =====
-- ports.py: the side effects of a run, over a world W. What stands behind a port is a parameter:
-- docker, tmux, the Claude CLI, the file system, SQLite and the worker thread.
use termiclaw.Prelude.{ℕ, ℤ, Text, Option, Bool}
use termiclaw.Float.{Float}
use termiclaw.Errors.{Result, Raises, PlannerError, ContainerError, SummarizationError}
use termiclaw.Model.{ParseResult, PlannerUsage, StepRecord}
use termiclaw.State.{State}
use termiclaw.Event.{SummarizationJob}
use termiclaw.Action.{Action}

pub record ContainerPort (W : Type 0) : Type 0 where
  pub ensure_image : Action W (Result Text ContainerError)
  pub provision_container : (image network : Text) → Action W (Result Text ContainerError)
  pub provision_session :
      (container_id session : Text) (width height history_limit : ℕ) → Action W (Unit {0})
  pub destroy_container : (container_id : Text) → Action W (Unit {0})
  pub is_session_alive : (container_id session : Text) → Action W Bool
  pub send_and_wait_idle :
      (container_id session keystrokes : Text) (max_seconds poll_interval : Float)
      (max_command_length : ℕ)
      → Action W Bool
  pub send_keys : (container_id session keys : Text) (max_command_length : ℕ) → Action W (Unit {0})
  pub get_incremental_output :
      (container_id session previous_buffer : Text) → Action W (Text × Text)

pub record PlannerPort (W : Type 0) : Type 0 where
  pub query :
      (prompt : Text) (timeout retries : ℕ) (claude_session_id : Text) (first_call : Bool)
      (resume_parent : Option Text) (fork_session : Bool)
      → Action W (Result Text PlannerError)
  pub parse_response : Text → Raises (Result ParseResult PlannerError)
  pub extract_usage : Text → Raises PlannerUsage

pub record PersistencePort (W : Type 0) : Type 0 where
  pub append_step : (run_dir : Text) → StepRecord → Action W (Unit {0})
  pub insert_step :
      (run_id : Text) (step : StepRecord) (step_index : ℕ) (input_tokens output_tokens : ℤ)
      (cost_usd : Float) (planner_duration_ms : ℤ)
      → Action W (Unit {0})
  pub insert_run : State → Action W (Unit {0})
  pub update_run :
      (state : State) (finished_at termination_reason : Text)
      (total_prompt_tokens total_input_tokens total_output_tokens : ℤ) (total_cost_usd : Float)
      → Action W (Unit {0})
  pub write_run_metadata :
      (run_dir : Text) (state : State) (finished_at termination_reason : Text) → Action W (Unit {0})
  pub aggregate_usage : (run_id : Text) → Action W PlannerUsage

pub record ArtifactsPort (W : Type 0) : Type 0 where
  pub refresh : State → (run_dir : Text) → (Text → Action W Text) → Action W (Unit {0})

-- `SummarizationComplete` of summarize_worker.py
pub record SummarizationComplete : Type 0 where
  pub summary : Text
  pub qa_context : Text

pub record SummarizePort (W : Type 0) : Type 0 where
  pub idle : Action W Bool
  pub poll : Action W (Option (Result SummarizationComplete SummarizationError))
  pub submit : SummarizationJob → Action W (Unit {0})
  pub shutdown : Action W (Unit {0})

-- The bundle. `hold` writes the one-cell handle `_StateHolder` of agent.py, which the summarizer's
-- query function reads: the cell lives in the world, beside what else that thread can see.
pub record Ports (W : Type 0) : Type 0 where
  pub container : ContainerPort W
  pub planner : PlannerPort W
  pub persistence : PersistencePort W
  pub artifacts : ArtifactsPort W
  pub summarize : SummarizePort W
  pub hold : State → W → W
