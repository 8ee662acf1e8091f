-- ===== src/Decide/Status.antt =====
-- How the status of a run moves, in one transition and over a history.
use mathlib.Core.List.{foldl}
use termiclaw.Prelude.{
  ℕ, ◌<◌, List, [], ◌∷◌, ◌++◌, Bool, true, false, not, ◌&&◌, ◌≡◌, ◌≢◌, refl, sym, ◌∙◌, ap, arith,
  leb, if◌then◌else◌, ◌⊎◌, inl, inr,
}
use termiclaw.Errors.{returns, Raises-cases}
use termiclaw.Python.{Builtins}
use termiclaw.Model.{Config, ParseResult, PlannerUsage}
use termiclaw.State.{
  State, RunStatus, active, succeeded, failed, cancelled, is_active, with_step, with_status,
  with_summarization,
}
use termiclaw.Event.{
  Event, loop_tick, planner_responded, planner_failed, send_keys_failed, summarization_failed,
  artifacts_refresh_failed, session_died, Transition,
}
use termiclaw.Decide.{DecideEffects, decide, max_consecutive_planner_failures}
use termiclaw.Decide.Effect.{decide-Effect, claimed_after}
use termiclaw.Decide.History.{replay}

-- The events that confirm a completion that is pending.
abbrev pub confirms : State → Event → Bool
confirms s (planner_responded parsed usage) = parsed.task_complete && s.pending_completion
confirms s _ = false

-- The events that fail the run.
abbrev pub fails : State → Event → Bool
fails s (loop_tick ready alive) = not alive
fails s (planner_failed error) = leb 2 s.consecutive_planner_failures
fails s (send_keys_failed error) = true
fails s (summarization_failed error) = true
fails s (artifacts_refresh_failed error) = true
fails s session_died = true
fails s _ = false

module _ (py : Builtins) (config : Config) (effects : DecideEffects) where
  -- Whenever decide returns, the new status is succeeded if the event is a response with
  -- task_complete while completion is pending, failed if it is one of the failures of the table
  -- `fails`, and the old status otherwise.
  pub decide-status :
      (s : State) (e : Event) (n : ℕ) (t : Transition) (m : ℕ)
      → decide py s e config effects n ≡ returns (t, m)
      → t.state.status
        ≡ (if confirms s e then succeeded else if fails s e then failed else s.status)
  unfolding decide with_status with_step with_summarization
  decide-status s (loop_tick ready alive) n t m h = ground arith
  decide-status s e n t m h = ground arith

  pub decide-terminal :
      (s : State) (e : Event) (n : ℕ) (t : Transition) (m : ℕ)
      → decide py s e config effects n ≡ returns (t, m)
      → is_active s.status ≡ false
      → is_active t.state.status ≡ false
  decide-terminal s e n t m h over = ground (arith, decide-status s e n t m h)

  decide-failures :
      (s : State) (e : Event) (n : ℕ) (u : Transition) (j : ℕ)
      → decide py s e config effects n ≡ returns (u, j)
      → (s.status ≡ active → s.consecutive_planner_failures < 3)
      → u.state.status ≡ active
      → u.state.consecutive_planner_failures < 3
  decide-failures s (planner_failed error) n u j eq before now = ground (
    arith,
    decide-status s (planner_failed error) n u j eq,
    (decide-Effect py config effects s (planner_failed error) n u j eq).failures,
  )
  decide-failures s e n u j eq before now =
      ground
        (arith, decide-status s e n u j eq, (decide-Effect py config effects s e n u j eq).failures)

  decide-confirms :
      (s : State) (e : Event) (n : ℕ) (t : Transition) (m : ℕ)
      → decide py s e config effects n ≡ returns (t, m)
      → s.status ≢ succeeded
      → t.state.status ≡ succeeded
      → confirms s e ≡ true
  decide-confirms s e n t m h before after = ground (arith, decide-status s e n t m h)

-- A history that confirms a completion: a completing response, and the last response before it
-- claimed completion too.
pub record Confirmed (claimed : Bool) (es : List Event) : Type 0 where
  pub before : List Event
  pub parsed : ParseResult
  pub usage : PlannerUsage
  pub after : List Event
  pub splits : es ≡ before ++ planner_responded parsed usage ∷ after
  pub complete : parsed.task_complete ≡ true
  pub claimed_before : foldl claimed_after claimed before ≡ true

Confirmed-here :
    (s : State) (e : Event) (es : List Event)
    → confirms s e ≡ true
    → Confirmed s.pending_completion (e ∷ es)
Confirmed-here s (planner_responded parsed usage) es h = record {
  before = [];
  parsed = parsed;
  usage = usage;
  after = es;
  splits = refl;
  complete = ground arith;
  claimed_before = ground arith;
}
Confirmed-here s _ es h = absurd (ground arith)

Confirmed-later :
    (b c : Bool) (e : Event) (es : List Event)
    → c ≡ claimed_after b e
    → Confirmed c es
    → Confirmed b (e ∷ es)
Confirmed-later b c e es same later = record {
  before = e ∷ later.before;
  parsed = later.parsed;
  usage = later.usage;
  after = later.after;
  splits = ap (λ r. e ∷ r) later.splits;
  complete = later.complete;
  claimed_before = ap (λ x. foldl claimed_after x later.before) (sym same) ∙ later.claimed_before;
}

is_succeeded : (r : RunStatus) → (r ≡ succeeded) ⊎ (r ≢ succeeded)
is_succeeded succeeded = inl refl
is_succeeded active = inr (λ e. cc)
is_succeeded failed = inr (λ e. cc)
is_succeeded cancelled = inr (λ e. cc)

module _ (py : Builtins) (config : Config) (effects : DecideEffects) where
  -- For every history of events that decide handles without an exception, from a state that has
  -- not succeeded to one that has: the history contains a planner response with task_complete,
  -- and just before it completion was claimed, that is, the pending claim of the first state,
  -- carried over the events before, is true there (a response claims exactly if it has
  -- task_complete, other events keep the claim).
  pub replay-Confirmed :
      (s : State) (n : ℕ) (es : List Event) (t : State) (m : ℕ)
      → replay py config effects s n es ≡ returns (t, m)
      → s.status ≢ succeeded
      → t.status ≡ succeeded
      → Confirmed s.pending_completion es
  unfolding replay
  replay-Confirmed s n [] t m r before after = absurd (ground arith)
  replay-Confirmed s n (e ∷ es) t m r before after =
      elim (Raises-cases (decide py s e config effects n)) [
        | inr (x, eq) ↦ absurd (ground arith)
        | inl ((u, j), eq) ↦ elim (is_succeeded u.state.status) [
          | inl now ↦
              Confirmed-here s e es (decide-confirms py config effects s e n u j eq before now)
          | inr not_yet ↦
              Confirmed-later _ _ e es (decide-Effect py config effects s e n u j eq).claimed
                (replay-Confirmed u.state j es t m (ground arith) not_yet after)
        ]
      ]

  -- For every history that decide handles without an exception to an active state, the planner
  -- failures in a row are below the limit there, if they were, where the first state was active.
  pub replay-failures :
      (s : State) (n : ℕ) (es : List Event) (t : State) (m : ℕ)
      → replay py config effects s n es ≡ returns (t, m)
      → (s.status ≡ active → s.consecutive_planner_failures < max_consecutive_planner_failures)
      → t.status ≡ active
      → t.consecutive_planner_failures < max_consecutive_planner_failures
  unfolding replay
  replay-failures s n [] t m r before now = ground arith
  replay-failures s n (e ∷ es) t m r before now =
      elim (Raises-cases (decide py s e config effects n)) [
        | inr (x, eq) ↦ absurd (ground arith)
        | inl ((u, j), eq) ↦
            replay-failures u.state j es t m (ground arith)
              (decide-failures py config effects s e n u j eq before) now
      ]
