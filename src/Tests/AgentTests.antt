-- ===== src/Tests/AgentTests.antt =====
-- Runs of the loop over concrete ports.
use termiclaw.Prelude.{
  ℕ, pos, codes, [], ◌∷◌, none, some, true, false, ◌≡◌, ◌≢◌, refl, arith, length,
}
use termiclaw.Errors.{returns, ok}
use termiclaw.State.{State, failed, with_step, with_status}
use termiclaw.Event.{observe, log_step}
use termiclaw.Core.{artifact_refresh_trigger, should_summarize}
use termiclaw.Decide.{decide, zero_usage}
use termiclaw.Decide.Starved.{Starved}
use termiclaw.Shell.{apply}
use termiclaw.Shell.Rows.{Rows}
use termiclaw.Agent.{Fueled, Setting, drive_loop, drive, turn, turn_event, run_turns, step}
use termiclaw.Agent.Drive.{EndsTerminal, drive_loop-EndsTerminal}
use termiclaw.Agent.Pump.{Undisturbed, drive_loop-none}
use termiclaw.Agent.Rows.{Wrote, run_turns-Wrote}
use termiclaw.Agent.Starved.{Refreshing, OnlyRefreshed, run_turns-Starved}
use termiclaw.Tests.Fixtures.{
  config, start, going_on, down, done_step, setting, table, state_of, calls_of, world_of,
}

-- A planner that is down fails the run in the third turn.
abbrev down_run : Fueled Rows (State × ℕ)
down_run = run_turns (setting down going_on true) 5 9 start 0 []

down_run_returns :
    down_run ≡ some (returns (state_of down_run, calls_of down_run), world_of down_run)
unfolding run_turns turn turn_event drive drive_loop step apply decide with_status with_step
    should_summarize artifact_refresh_trigger
down_run_returns = refl

down_run_rows : (length (world_of down_run) ≡ 3) × ((state_of down_run).status ≡ failed)
unfolding run_turns turn turn_event drive drive_loop step apply decide with_status with_step
    should_summarize artifact_refresh_trigger
down_run_rows = (refl, refl)

run_turns-Wrote_example :
    Wrote
      (setting down going_on true)
      (table down going_on true)
      start
      []
      (state_of down_run)
      (world_of down_run)
run_turns-Wrote_example =
    run_turns-Wrote (setting down going_on true) (table down going_on true) 5 9 start 0 []
      (state_of down_run) (calls_of down_run) (world_of down_run) down_run_returns

abbrev over : State
over = record start { status = failed }

drive_loop-EndsTerminal_example : EndsTerminal (
    drive_loop
      (setting down going_on true)
      2
      over
      0
      (observe ∷ log_step done_step zero_usage ∷ [])
      [])
drive_loop-EndsTerminal_example =
    drive_loop-EndsTerminal (setting down going_on true) 2 over 0
      (observe ∷ log_step done_step zero_usage ∷ []) [] refl (omega arith)

-- A dead session ends every turn at once.
dead_turn : (s : State) (n : ℕ) (w : Rows) → turn (setting down going_on false) 0 s n w ≢ none
unfolding turn turn_event drive drive_loop decide
dead_turn s n w h = cc

abbrev chatty : Setting Rows
chatty = setting (ok (codes "answer")) going_on true

chatty-Undisturbed : Undisturbed chatty
unfolding apply
chatty-Undisturbed = record {
  observes = λ s w. (codes "$", codes "$", w, refl);
  sends = λ s k x w. (true, w, refl);
  answers =
      λ s p f r k w. (going_on, zero_usage, w, refl, record { open_task = refl; acts = refl });
  logs = λ s r u w. (_, refl);
}

drive_loop-none_example : drive_loop chatty 1000 start 0 (observe ∷ []) [] ≡ none
drive_loop-none_example =
    drive_loop-none chatty chatty-Undisturbed 1000 start 0 (observe ∷ []) [] refl (refl, tt) refl

abbrev full : State
full = record start { current_step = 7; total_prompt_tokens = pos 100_000 }

chatty-Refreshing : Refreshing chatty
unfolding apply turn_event
chatty-Refreshing = record {
  ticks = λ s w. (true, w, refl);
  refreshes = λ s t w. (w, refl);
  logs = λ s r u w. (_, refl);
}

full-Starved : Starved full config
full-Starved = record { interval = omega arith; begun = omega arith; full = refl }

run_turns-Starved_example :
    (t : State) × (m : ℕ) × (v : Rows) × (run_turns chatty 5 2 full 0 [] ≡ some (returns (t, m), v))
    × OnlyRefreshed full 5 t
run_turns-Starved_example =
    run_turns-Starved chatty chatty-Refreshing 5 0 full 0 [] refl full-Starved
