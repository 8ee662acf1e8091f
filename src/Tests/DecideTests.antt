-- ===== src/Tests/DecideTests.antt =====
-- Histories of events through `decide`.
use termiclaw.Prelude.{
  ℕ, ◌<◌, pos, codes, List, [], ◌∷◌, true, false, ◌≡◌, refl, arith, All, tail_slice, if◌then◌else◌,
}
use mathlib.Core.List.{foldl}
use termiclaw.Errors.{Raises, returns, raises, planner_error}
use termiclaw.State.{State, succeeded, failed, with_step, with_status}
use termiclaw.Event.{
  Event, loop_tick, observation_captured, planner_responded, planner_failed, step_logged,
  Transition,
}
use termiclaw.Decide.{decide, Decided, zero_usage}
use termiclaw.Decide.Effect.{count_after, steps_after, tokens_after, claimed_after, failures_after}
use termiclaw.Decide.History.{replay, Remembers, replay-Remembers}
use termiclaw.Decide.Status.{
  Confirmed, replay-Confirmed, replay-failures, decide-status, confirms, fails,
}
use termiclaw.Decide.Session.{Resumes, decide-Resumes}
use termiclaw.Tests.Fixtures.{py, config, effects, start, forked, complete, done_step}

abbrev outcome : Raises (State × ℕ) → State × ℕ
outcome (returns p) = p
outcome (raises x) = (start, 0)

abbrev confirming : List Event
confirming =
    planner_responded complete zero_usage
    ∷ planner_responded complete zero_usage
    ∷ step_logged done_step
    ∷ []

abbrev confirmed_run : State × ℕ
confirmed_run = outcome (replay py config effects start 0 confirming)

confirmed_run_returns : replay py config effects start 0 confirming ≡ returns confirmed_run
unfolding replay decide with_status with_step
confirmed_run_returns = refl

replay-Confirmed_example : Confirmed false confirming
unfolding replay decide with_status with_step
replay-Confirmed_example =
    replay-Confirmed py config effects start 0 confirming confirmed_run.0 confirmed_run.1
      confirmed_run_returns (λ e. cc) refl

remembered_start : Remembers start 0 [] (pos 0) false 0
unfolding tail_slice
remembered_start = record {
  at_step = refl;
  recent = refl;
  spent = refl;
  claim = refl;
  failed = refl;
}

replay-Remembers_example :
    Remembers confirmed_run.0
      (foldl count_after 0 confirming)
      (foldl steps_after [] confirming)
      (foldl tokens_after (pos 0) confirming)
      (foldl claimed_after false confirming)
      (foldl failures_after 0 confirming)
replay-Remembers_example =
    replay-Remembers py config effects start 0 confirming confirmed_run.0 confirmed_run.1 0 []
      (pos 0) false 0 remembered_start confirmed_run_returns

-- Two failures, and a third would fail the run.
abbrev failing : List Event
failing =
    planner_failed (planner_error (codes "down"))
    ∷ planner_failed (planner_error (codes "down"))
    ∷ []

abbrev failing_run : State × ℕ
failing_run = outcome (replay py config effects start 0 failing)

failing_run_returns : replay py config effects start 0 failing ≡ returns failing_run
unfolding replay decide with_status
failing_run_returns = refl

replay-failures_example : failing_run.0.consecutive_planner_failures < 3
unfolding replay decide with_status
replay-failures_example =
    replay-failures py config effects start 0 failing failing_run.0 failing_run.1
      failing_run_returns (λ e. omega arith) refl

abbrev tick : Event
tick = loop_tick true false

abbrev dead : State
dead = record start { status = failed }

decide-status_example :
    dead.status
    ≡ (if confirms start tick then succeeded else if fails start tick then failed else start.status)
unfolding decide with_status
decide-status_example =
    decide-status py config effects start tick 0 (record { state = dead; commands = [] }) 0 refl

abbrev decided_of : Decided → Transition
decided_of (returns (t, m)) = t
decided_of (raises x) = record { state = start; commands = [] }

abbrev fork_query : Transition
fork_query =
    decided_of (decide py forked (observation_captured (codes "$") (codes "$")) config effects 0)

fork_query_returns :
    decide py forked (observation_captured (codes "$") (codes "$")) config effects 0
    ≡ returns (fork_query, 0)
unfolding decide
fork_query_returns = refl

decide-Resumes_example : All (Resumes forked) fork_query.commands
decide-Resumes_example =
    decide-Resumes py config effects forked (observation_captured (codes "$") (codes "$")) 0
      fork_query 0 fork_query_returns

-- A fork whose first query failed: it resumes its own session from there on.
abbrev lost_fork : State
lost_fork = record forked { is_first_call = false; consecutive_planner_failures = 1 }

abbrev lost_events : List Event
lost_events = observation_captured (codes "$") (codes "$") ∷ []

abbrev lost_run : State × ℕ
lost_run = outcome (replay py config effects lost_fork 0 lost_events)

lost_run_returns : replay py config effects lost_fork 0 lost_events ≡ returns lost_run
unfolding replay decide
lost_run_returns = refl
