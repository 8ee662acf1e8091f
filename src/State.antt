-- ===== src/State.antt =====
-- state.py: the frozen run state and the helpers that replace its fields.
use termiclaw.Prelude.{
  ℕ, ℤ, pos, ◌+◌, Text, codes, text_eq, List, [], ◌∷◌, ◌++◌, Option, none, some, Bool, true, false,
  if◌then◌else◌, tail_slice,
}
use termiclaw.Model.{StepRecord}

pub data RunStatus : Type 0 where
  active succeeded failed cancelled : RunStatus

-- The text of a status.
abbrev pub status_text : RunStatus → Text
status_text active = codes "active"
status_text succeeded = codes "succeeded"
status_text failed = codes "failed"
status_text cancelled = codes "cancelled"

unfoldable pub coerce_status : Text → RunStatus
coerce_status status =
    if text_eq status (codes "active")
    then active
    else if text_eq status (codes "succeeded")
    then succeeded
    else if text_eq status (codes "cancelled")
    then cancelled
    else failed

-- `status == "active"`
abbrev pub is_active : RunStatus → Bool
is_active active = true
is_active _ = false

pub record ForkContext : Type 0 where
  pub parent_run_id : Text
  pub forked_at_step : ℕ
  pub resume_parent_session : Text

pub record StallState : Type 0 where
  pub identical_obs_streak : ℕ
  pub repeat_command_streak : ℕ
  pub last_keystrokes_hash : Text
  pub last_observation_hash : Text
  pub nudges_sent : ℕ
  pub forced_interrupts : ℕ

pub record State : Type 0 where
  pub run_id : Text
  pub instruction : Text
  pub tmux_session : Text
  pub started_at : Text
  pub status : RunStatus
  pub container_id : Text
  pub claude_session_id : Text
  pub max_turns : ℕ
  pub fork : Option ForkContext
  pub current_step : ℕ
  pub previous_buffer : Text
  pub summary : Option Text
  pub qa_context : Option Text
  pub total_prompt_tokens : ℤ
  pub recent_steps : List StepRecord
  pub stall : StallState
  pub pending_completion : Bool
  pub pending_blocking_timeout : Bool
  pub is_first_call : Bool
  pub consecutive_planner_failures : ℕ
  pub last_observation : Text

-- `_DEFAULT_MAX_RECENT`
abbrev pub default_max_recent : ℕ
default_max_recent = 20

unfoldable pub with_step : State → StepRecord → ℕ → State
with_step state step max_recent = record state {
  current_step = state.current_step + 1;
  recent_steps = tail_slice max_recent (state.recent_steps ++ step ∷ []);
}

unfoldable pub with_status : State → RunStatus → State
with_status state status = record state { status = status }

unfoldable pub with_summarization : State → Text → Text → State
with_summarization state summary qa_context = record state {
  summary = some summary;
  qa_context = some qa_context;
  total_prompt_tokens = pos 0;
  recent_steps = [];
}

-- The default `StallState`.
abbrev pub no_stall : StallState
no_stall = record {
  identical_obs_streak = 0;
  repeat_command_streak = 0;
  last_keystrokes_hash = [];
  last_observation_hash = [];
  nudges_sent = 0;
  forced_interrupts = 0;
}

-- A `State` as its constructor makes it from the required fields: the defaults elsewhere.
abbrev pub fresh_state : Text → Text → Text → Text → State
fresh_state run_id instruction tmux_session started_at = record {
  run_id = run_id;
  instruction = instruction;
  tmux_session = tmux_session;
  started_at = started_at;
  status = active;
  container_id = [];
  claude_session_id = [];
  max_turns = 1_000_000;
  fork = none;
  current_step = 0;
  previous_buffer = [];
  summary = none;
  qa_context = none;
  total_prompt_tokens = pos 0;
  recent_steps = [];
  stall = no_stall;
  pending_completion = false;
  pending_blocking_timeout = false;
  is_first_call = true;
  consecutive_planner_failures = 0;
  last_observation = [];
}

abbrev or_kept : {A : Type 0} → Option A → A → A
or_kept none old = old
or_kept (some new) old = new

-- `with_stall_counters`: an argument that is None keeps the counter.
unfoldable pub with_stall_counters :
    State
    → (identical_obs_streak repeat_command_streak : Option ℕ)
    → (last_keystrokes_hash last_observation_hash : Option Text)
    → (nudges_sent forced_interrupts : Option ℕ) → State
with_stall_counters state obs cmd keys seen nudges forced =
    let old = state.stall in
    record state {
      stall = record {
        identical_obs_streak = or_kept obs old.identical_obs_streak;
        repeat_command_streak = or_kept cmd old.repeat_command_streak;
        last_keystrokes_hash = or_kept keys old.last_keystrokes_hash;
        last_observation_hash = or_kept seen old.last_observation_hash;
        nudges_sent = or_kept nudges old.nudges_sent;
        forced_interrupts = or_kept forced old.forced_interrupts;
      };
    }

unfoldable pub with_stall : State → StallState → State
with_stall state new_stall = record state { stall = new_stall }
