-- ===== src/Cli/Fork.antt =====
-- cli.py: the command `fork`: the seed of the new run, and the parent that it is run with.
use termiclaw.Prelude.{ℕ, pos_part, Text, codes, [], ◌∷◌, ◌++◌, Option, none, some, Bool}
use termiclaw.Model.{RunInfo, Config}
use termiclaw.State.{State, fresh_state, coerce_status}
use termiclaw.Artifacts.{Dir, read_or_empty}
use termiclaw.Cli.{Ending, done, exited}

-- The dictionary of `_read_parent_artifacts`, by file name.
abbrev pub read_parent_artifacts : Dir → Text → Text
read_parent_artifacts d filename = read_or_empty (d filename)

-- The seed, of the four texts.
abbrev pub seed_text : (task what_we_did status do_next plan : Text) → Text
seed_text task what_we_did status do_next plan =
    codes "You are continuing work forked from a prior session.\n\n"
    ++ (codes "Task: "
        ++ (task
            ++ (codes "\n\n"
                ++ (codes "Prior session summary (from artifacts):\n\n"
                    ++ (codes "## What we already did\n"
                        ++ (what_we_did
                            ++ (codes "\n\n"
                                ++ (codes "## Current status\n"
                                    ++ (status
                                        ++ (codes "\n\n"
                                            ++ (codes "## Suggested next steps\n"
                                                ++ (do_next
                                                    ++ (codes "\n\n"
                                                        ++ (codes "## Plan\n" ++ plan))))))))))))))

unfoldable pub build_fork_seed : Text → (Text → Text) → Text
build_fork_seed task artifacts =
    seed_text task (artifacts (codes "WHAT_WE_DID.md")) (artifacts (codes "STATUS.md"))
      (artifacts (codes "DO_NEXT.md")) (artifacts (codes "PLAN.md"))

-- `args.task or parent_info.instruction`
abbrev pub task_or : Option Text → Text → Text
task_or none instruction = instruction
task_or (some []) instruction = instruction
task_or (some (c ∷ t)) instruction = c ∷ t

-- The state of the parent, from its row; a stored step count is not negative.
unfoldable pub parent_state : RunInfo → State
parent_state info =
    let fresh = fresh_state info.run_id info.instruction info.tmux_session info.started_at in
    record fresh {
      status = coerce_status info.status;
      claude_session_id = info.claude_session_id;
      container_id = info.container_id;
      current_step = pos_part info.total_steps;
    }

-- The arguments that `_fork` reads.
pub record ForkArgs : Type 0 where
  pub run_id : Text
  pub task : Option Text
  pub max_turns : ℕ
  pub keep_session : Bool
  pub network : Text

-- `Config(...)`, from the defaults of its fields.
unfoldable pub fork_config : Config → ForkArgs → Text → Config
fork_config defaults args seed = record defaults {
  instruction = seed;
  max_turns = args.max_turns;
  keep_session = args.keep_session;
  docker_network = args.network;
}

-- What `agent.run` is called with, or the message of the exit, with what `get_run` gave.
unfoldable pub fork_call :
    Config → (Text → Dir) → ForkArgs → Option RunInfo → Ending (Config × State)
fork_call defaults artifacts_of args none =
    exited (codes "Error: no run found matching '" ++ (args.run_id ++ codes "'\n"))
fork_call defaults artifacts_of args (some info) =
    let task = task_or args.task info.instruction in
    let seed = build_fork_seed task (read_parent_artifacts (artifacts_of info.run_id)) in
    done [] (fork_config defaults args seed, parent_state info)
