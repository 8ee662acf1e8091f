-- ===== src/Model.antt =====
-- models.py: the records that the parts exchange. Seconds are floats; counts and sizes of the
-- configuration are natural numbers; token counts are Python's signed integers.
use termiclaw.Prelude.{ℕ, ℤ, Text, List, Option, Bool}
use termiclaw.Float.{Float}

pub record ParsedCommand : Type 0 where
  pub keystrokes : Text
  pub duration : Float

pub record ParseResult : Type 0 where
  pub analysis : Text
  pub plan : Text
  pub commands : List ParsedCommand
  pub task_complete : Bool
  pub error : Option Text
  pub warning : Option Text

-- `int | float | str`
pub data MetricValue : Type 0 where
  int : ℤ → MetricValue
  float : Float → MetricValue
  str : Text → MetricValue

pub record StepRecord : Type 0 where
  pub step_id : Text
  pub timestamp : Text
  pub source : Text
  pub observation : Text
  pub analysis : Option Text
  pub plan : Option Text
  pub commands : List ParsedCommand
  pub task_complete : Bool
  pub error : Option Text
  pub metrics : List (Text × MetricValue)
  pub is_copied_context : Bool

pub record PlannerUsage : Type 0 where
  pub input_tokens : ℤ
  pub cache_read_input_tokens : ℤ
  pub output_tokens : ℤ
  pub cost_usd : Float
  pub duration_ms : ℤ
  pub claude_session_id : Text

-- The fields of `Config` that the modelled code reads.
pub record Config : Type 0 where
  pub instruction : Text
  pub max_turns : ℕ
  pub pane_width : ℕ
  pub pane_height : ℕ
  pub history_limit : ℕ
  pub max_command_length : ℕ
  pub planner_timeout : ℕ
  pub planner_retries : ℕ
  pub summarization_token_threshold : ℤ
  pub stall_nudge_after : ℕ
  pub stall_force_interrupt_after : ℕ
  pub max_forced_interrupts_per_run : ℕ
  pub capture_tail_bytes : ℕ
  pub blocking_max_seconds : Float
  pub blocking_poll_interval : Float
  pub state_dump_interval_turns : ℕ
  pub state_dump_token_threshold : ℤ
  pub state_dump_dir_name : Text
  pub state_dump_max_chars_per_file : ℕ
  pub docker_network : Text
  pub keep_session : Bool

pub record RunInfo : Type 0 where
  pub run_id : Text
  pub instruction : Text
  pub status : Text
  pub total_steps : ℤ
  pub started_at : Text
  pub finished_at : Text
  pub tmux_session : Text
  pub termination_reason : Text
  pub prompt_tokens : ℤ
  pub duration : Text
  pub input_tokens : ℤ
  pub output_tokens : ℤ
  pub cost_usd : Float
  pub parent_run_id : Option Text
  pub claude_session_id : Text
  pub container_id : Text
