-- ===== src/Runtime/Log.antt =====
-- shell.py over runtime.py: steps that are logged go to trajectory.jsonl and to the database.
use termiclaw.Prelude.{ℕ, Text, List, [], ◌∷◌, ◌≡◌, All}
use termiclaw.Errors.{returns}
use termiclaw.Model.{StepRecord, PlannerUsage, Config}
use termiclaw.State.{State}
use termiclaw.Event.{log_step}
use termiclaw.Action.{Action, pure, ◌>>◌}
use termiclaw.Shell.{apply}
use termiclaw.Trajectory.{append_step, text_or_empty}
use termiclaw.Trajectory.Lines.{line_of}
use termiclaw.Database.{Spent, stored_step}
use termiclaw.Database.Bind.{bind, step_params, insertable}
use termiclaw.Runtime.{Outside, World, set_at}
use termiclaw.Runtime.Wired.{build_default_ports}

-- A step with the number of its turn and its usage.
abbrev pub Entry : Type 0
Entry = ℕ × StepRecord × PlannerUsage

abbrev pub spent_of : Entry → StepRecord × Spent
spent_of (n, step, usage) = (
  step,
  record {
    step_index = n;
    input_tokens = usage.input_tokens;
    output_tokens = usage.output_tokens;
    cost_usd = usage.cost_usd;
    planner_duration_ms = usage.duration_ms;
  },
)

abbrev pub entry_line : {W : Type 0} → Outside W → Entry → Text
entry_line o (n, step, usage) = line_of o.dumps step

-- A step that can be stored: all its texts have a UTF-8 and its numbers 64 bits, and no command has a
-- NaN duration.
abbrev pub Storable : Text → StepRecord × Spent → Type 0
Storable run_id (step, x) =
    (bind (step_params run_id step x) ≡ returns tt)
    × All (λ cmd. insertable step.step_id cmd ≡ returns tt) step.commands

module _ {W : Type 0} (o : Outside W) (config : Config) (run_dir : Text) (s : State) where
  -- The steps logged one after the other, each at its turn.
  abbrev pub log_steps : List Entry → Action (World W) (Unit {0})
  log_steps [] = pure tt
  log_steps ((n, step, usage) ∷ rest) =
      apply (build_default_ports o config) o.py (log_step step usage)
        (record s { current_step = n }) run_dir config
      >> log_steps rest

  abbrev logged_once : Entry → World W → World W
  logged_once (n, step, usage) w = record w {
    runs = set_at run_dir (append_step o.dumps (w.runs run_dir) step) w.runs;
    db = stored_step w.db s.run_id step (spent_of (n, step, usage)).1;
  }

  abbrev logged_world : List Entry → World W → World W
  logged_world [] w = w
  logged_world ((n, step, usage) ∷ rest) w = logged_world rest (logged_once (n, step, usage) w)

  abbrev pub trajectory_text : World W → Text
  trajectory_text w = text_or_empty (w.runs run_dir).trajectory
