-- ===== src/Tests/RunTests.antt =====
-- Whole runs, stalls, and the worker.
use termiclaw.Prelude.{ℕ, codes, List, [], ◌∷◌, none, some, true, false, ◌≡◌, refl, ◌↔◌, ◌⊎◌}
use termiclaw.Errors.{returns, raises, zero_division, Raises}
use termiclaw.State.{State, with_step, with_status}
use termiclaw.Event.{SummarizationJob, loop_tick, observation_captured, Event}
use termiclaw.Ports.{SummarizationComplete}
use termiclaw.Core.{artifact_refresh_trigger, should_summarize}
use termiclaw.Decide.{decide}
use termiclaw.Decide.History.{replay}
use termiclaw.Decide.Total.{ReachesTick, replay_total}
use termiclaw.Shell.{apply}
use termiclaw.Shell.Rows.{Rows}
use termiclaw.Agent.{Fueled, drive_loop, drive, turn, turn_event, run_turns, step, initial_state}
use termiclaw.Agent.Run.{Drawn, run}
use termiclaw.Agent.Ending.{Ended, run-Ended}
use termiclaw.Summarizer.Queue.{
  Call, submitted, polled, completed, closed, trace, untouched, InOrder, trace-InOrder,
}
use termiclaw.Stall.{Matching, force_interrupt}
use termiclaw.Stall.Streaks.{Turn, watch, AllSame, observed, sent, watch-forces}
use termiclaw.Tests.Fixtures.{py, config, effects, start, going_on, down, setting, ls}

abbrev drawn : Drawn
drawn = record {
  run_id = codes "0123456789";
  session_id = codes "session";
  started = codes "now";
  finished = codes "then";
}

-- The state and the world of a finished run.
abbrev ended_state : Fueled Rows State → State
ended_state (some (returns t, w)) = t
ended_state _ = start

abbrev ended_world : Fueled Rows State → Rows
ended_world (some (returns t, w)) = w
ended_world _ = []

-- A run whose planner is down.
abbrev down_run : Fueled Rows State
down_run = run (setting down going_on true) 9 drawn none []

down_run_returns : down_run ≡ some (returns (ended_state down_run), ended_world down_run)
unfolding run initial_state run_turns turn turn_event drive drive_loop step apply decide with_status
    with_step should_summarize artifact_refresh_trigger
down_run_returns = refl

run-Ended_example : Ended (codes "0123456789") (ended_state down_run)
run-Ended_example =
    run-Ended (setting down going_on true) 9 drawn none [] (ended_state down_run)
      (ended_world down_run) down_run_returns

abbrev opening : List Event
opening = loop_tick true true ∷ observation_captured (codes "$") (codes "$") ∷ []

replay_total_example :
    (((t : State) × (m : ℕ) × (replay py config effects start 0 opening ≡ returns (t, m)))
      ⊎ (replay py config effects start 0 opening ≡ raises zero_division))
    × ((replay py config effects start 0 opening ≡ raises zero_division)
        ↔ ((config.state_dump_interval_turns ≡ 0) × ReachesTick py config effects start 0 opening))
replay_total_example = replay_total py config effects start 0 opening

abbrev job : SummarizationJob
job = record {
  instruction = codes "list";
  recent_text = codes "r";
  full_text = codes "f";
  visible_screen = [];
}

abbrev done_with : SummarizationJob → Raises SummarizationComplete
done_with j = returns (record { summary = j.recent_text; qa_context = j.full_text })

abbrev calls : List Call
calls = submitted job ∷ submitted job ∷ polled ∷ completed ∷ polled ∷ submitted job ∷ closed ∷ []

trace-InOrder_example :
    InOrder (λ x. codes "error") done_with (trace (λ x. codes "error") done_with untouched calls)
trace-InOrder_example = trace-InOrder (λ x. codes "error") done_with calls

-- Nothing is volatile, and a text with a mark before it is its hash.
abbrev plain : Matching
plain = record { sub = λ p f r t. t; search = λ p f t. false; hash = λ t. 35 ∷ t }

abbrev same_turn : Turn
same_turn = (codes "$", ls ∷ [])

abbrev four : List Turn
four = same_turn ∷ same_turn ∷ same_turn ∷ same_turn ∷ []

watch-forces_example :
    ((watch plain config start (same_turn ∷ four)).1 ≡ force_interrupt)
    ↔ (AllSame 4 (observed plain (same_turn ∷ four)) ⊎ AllSame 4 (sent plain (same_turn ∷ four)))
watch-forces_example = watch-forces plain (λ t. refl) config start same_turn four refl
