-- ===== src/Tests/Fixtures.antt =====
-- The data of the tests: a configuration, states, and ports over a world that is the steps table.
use termiclaw.Prelude.{ℕ, pos, Text, codes, [], ◌∷◌, ◌++◌, none, some, Bool, true, false, refl, ◌≡◌}
use termiclaw.Float.{finite}
use termiclaw.Errors.{Result, ok, err, Raises, returns, PlannerError, planner_error}
use termiclaw.Python.{Builtins, rejected}
use termiclaw.Model.{ParsedCommand, ParseResult, StepRecord, Config}
use termiclaw.State.{State, fresh_state}
use termiclaw.Ports.{Ports}
use termiclaw.Decide.{DecideEffects, zero_usage}
use termiclaw.Agent.{Setting, Fueled}
use termiclaw.Shell.Rows.{Rows, StepTable}

abbrev pub py : Builtins
py = record {
  repr = λ v. codes "?";
  repr_text = λ t. t;
  str_float = λ x. codes "1.0";
  loads = λ t. rejected (codes "no JSON");
  int_of_text = λ t. none;
  float_of_text = λ t. none;
}

abbrev pub config : Config
config = record {
  instruction = codes "list the files";
  max_turns = 5;
  pane_width = 160;
  pane_height = 40;
  history_limit = 100;
  max_command_length = 16_000;
  planner_timeout = 300;
  planner_retries = 3;
  summarization_token_threshold = pos 25_000;
  stall_nudge_after = 2;
  stall_force_interrupt_after = 4;
  max_forced_interrupts_per_run = 5;
  capture_tail_bytes = 3;
  blocking_max_seconds = finite (pos 180);
  blocking_poll_interval = finite (pos 1);
  state_dump_interval_turns = 10;
  state_dump_token_threshold = pos 100_000;
  state_dump_dir_name = codes "artifacts";
  state_dump_max_chars_per_file = 8_000;
  docker_network = codes "bridge";
  keep_session = false;
}

abbrev pub effects : DecideEffects
effects = record { new_id = λ k. k ∷ []; now = λ k. codes "now" }

abbrev pub start : State
start =
    fresh_state (codes "run") (codes "list the files") (codes "termiclaw-run") (codes "2026-01-01")

abbrev pub forked : State
forked = record start {
  fork = some (record {
    parent_run_id = codes "p";
    forked_at_step = 4;
    resume_parent_session = codes "session-p";
  });
}

abbrev pub ls : ParsedCommand
ls = record { keystrokes = codes "ls"; duration = finite (pos 7) }

abbrev pub going_on : ParseResult
going_on = record {
  analysis = codes "a shell";
  plan = codes "look";
  commands = ls ∷ [];
  task_complete = false;
  error = none;
  warning = none;
}

abbrev pub complete : ParseResult
complete = record going_on { task_complete = true }

abbrev pub done_step : StepRecord
done_step = record {
  step_id = codes "s";
  timestamp = codes "now";
  source = codes "agent";
  observation = [];
  analysis = none;
  plan = none;
  commands = [];
  task_complete = false;
  error = none;
  metrics = [];
  is_copied_context = false;
}

abbrev pub down : Result Text PlannerError
down = err (planner_error (codes "down"))

-- Ports whose planner always gives `answer` and `parsed`, and whose session is alive or not.
abbrev pub ports : Result Text PlannerError → ParseResult → Bool → Ports Rows
ports answer parsed alive = record {
  container = record {
    ensure_image = λ w. (returns (ok (codes "image")), w);
    provision_container = λ i n w. (returns (ok (codes "container")), w);
    provision_session = λ c s x y h w. (returns tt, w);
    destroy_container = λ c w. (returns tt, w);
    is_session_alive = λ c s w. (returns alive, w);
    send_and_wait_idle = λ c s k x y m w. (returns true, w);
    send_keys = λ c s k m w. (returns tt, w);
    get_incremental_output = λ c s p w. (returns (codes "$", codes "$"), w);
  };
  planner = record {
    query = λ p t r s f o g w. (returns answer, w);
    parse_response = λ t. returns (ok parsed);
    extract_usage = λ t. returns zero_usage;
  };
  persistence = record {
    append_step = λ d r w. (returns tt, w);
    insert_step = λ i r k a b x d w. (returns tt, w ++ (k, r) ∷ []);
    insert_run = λ s w. (returns tt, w);
    update_run = λ s f r a b c x w. (returns tt, w);
    write_run_metadata = λ d s f r w. (returns tt, w);
    aggregate_usage = λ r w. (returns zero_usage, w);
  };
  artifacts = record { refresh = λ s d f w. (returns tt, w) };
  summarize = record {
    idle = λ w. (returns true, w);
    poll = λ w. (returns none, w);
    submit = λ j w. (returns tt, w);
    shutdown = λ w. (returns tt, w);
  };
  hold = λ s w. w;
}

abbrev pub setting : Result Text PlannerError → ParseResult → Bool → Setting Rows
setting answer parsed alive = record {
  py = py;
  ports = ports answer parsed alive;
  config = config;
  effects = effects;
  run_dir = codes "runs/run";
}

pub inserted :
    (k : ℕ) (r : StepRecord) (w v : Rows)
    → ◌≡◌ {A = Raises (Unit {0}) × Rows} (returns tt, w ++ (k, r) ∷ []) (returns tt, v)
    → v ≡ w ++ (k, r) ∷ []
inserted k r w v h = cc

abbrev pub table :
    (answer : Result Text PlannerError) (parsed : ParseResult) (alive : Bool)
    → StepTable (ports answer parsed alive)
table answer parsed alive = record {
  rows = λ w. w;
  inserts = λ i r k a b x d w v h. inserted k r w v h;
  appends = λ d r w. refl;
  captures = λ a b p w. refl;
  waits = λ a b k x y m w. refl;
  keys = λ a b k m w. refl;
  queries = λ p t r s f o g w. refl;
  submits = λ j w. refl;
  refreshes = λ s d f w h. refl;
  alives = λ a b w. refl;
  polls = λ w. refl;
  idles = λ w. refl;
  holds = λ s w. refl;
}

-- The parts of a finished computation, or the given ones.
abbrev pub state_of : Fueled Rows (State × ℕ) → State
state_of (some (returns (t, m), w)) = t
state_of _ = start

abbrev pub calls_of : Fueled Rows (State × ℕ) → ℕ
calls_of (some (returns (t, m), w)) = m
calls_of _ = 0

abbrev pub world_of : Fueled Rows (State × ℕ) → Rows
world_of (some (returns (t, m), w)) = w
world_of _ = []
