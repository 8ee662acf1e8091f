-- ===== src/Decide/History.antt =====
-- A whole history of events: `decide` chained over a list, and what its final state remembers.
use mathlib.Core.List.{foldl}
use termiclaw.Prelude.{
  ℕ, ℤ, List, [], ◌∷◌, Bool, ◌≡◌, refl, arith, tail_slice, ap, ◌∙◌, tail_slice-append, inl, inr,
}
use termiclaw.Errors.{Raises, returns, raises, Raises-cases}
use termiclaw.Python.{Builtins}
use termiclaw.Model.{StepRecord, Config}
use termiclaw.State.{State}
use termiclaw.Event.{Event, step_logged, summarization_done}
use termiclaw.Decide.{DecideEffects, decide}
use termiclaw.Decide.Effect.{
  Effect, decide-Effect, count_after, steps_after, tokens_after, claimed_after, failures_after,
  recent_after,
}

recent_after-window :
    (all : List StepRecord) (e : Event)
    → recent_after (tail_slice 20 all) e ≡ tail_slice 20 (steps_after all e)
recent_after-window all (step_logged step) = tail_slice-append 19 all (step ∷ [])
recent_after-window all (summarization_done summary qa) = unfold tail_slice in refl
recent_after-window all e = refl

module _ (py : Builtins) (config : Config) (effects : DecideEffects) where
  -- The events in order, each decided in the state that the one before it left.
  unfoldable pub replay : State → ℕ → List Event → Raises (State × ℕ)
  replay s n [] = returns (s, n)
  replay s n (e ∷ es) = elim (decide py s e config effects n) [
    | raises x ↦ raises x
    | returns (t, m) ↦ replay t.state m es
  ]

-- What a state remembers of a history.
pub record Remembers (s : State) (count : ℕ) (steps : List StepRecord) (tokens : ℤ) (claimed : Bool)
    (failures : ℕ) : Type 0 where
  pub at_step : s.current_step ≡ count
  pub recent : s.recent_steps ≡ tail_slice 20 steps
  pub spent : s.total_prompt_tokens ≡ tokens
  pub claim : s.pending_completion ≡ claimed
  pub failed : s.consecutive_planner_failures ≡ failures

Remembers-step :
    (s t : State) (e : Event) (c : ℕ) (l : List StepRecord) (k : ℤ) (b : Bool) (f : ℕ)
    → Effect s e t
    → Remembers s c l k b f
    → Remembers t
        (count_after c e)
        (steps_after l e)
        (tokens_after k e)
        (claimed_after b e)
        (failures_after f e)
Remembers-step s t e c l k b f step h = record {
  at_step = step.count ∙ ap (λ x. count_after x e) h.at_step;
  recent = step.recent ∙ ap (λ x. recent_after x e) h.recent ∙ recent_after-window l e;
  spent = step.tokens ∙ ap (λ x. tokens_after x e) h.spent;
  claim = step.claimed ∙ ap (λ x. claimed_after x e) h.claim;
  failed = step.failures ∙ ap (λ x. failures_after x e) h.failed;
}

module _ (py : Builtins) (config : Config) (effects : DecideEffects) where
  -- For every history that decide handles without an exception: the step counter, the recent
  -- steps (the last 20 logged since the last summarization), the prompt tokens (added up since
  -- the last summarization), the pending completion claim and the planner failures in a row are
  -- those that a fold over the events computes, if they were so at the start.
  pub replay-Remembers :
      (s : State) (n : ℕ) (es : List Event) (t : State) (m : ℕ) (c : ℕ) (l : List StepRecord)
      (k : ℤ) (b : Bool) (f : ℕ)
      → Remembers s c l k b f
      → replay py config effects s n es ≡ returns (t, m)
      → Remembers t
          (foldl count_after c es)
          (foldl steps_after l es)
          (foldl tokens_after k es)
          (foldl claimed_after b es)
          (foldl failures_after f es)
  unfolding replay
  replay-Remembers s n [] t m c l k b f h r = ground arith
  replay-Remembers s n (e ∷ es) t m c l k b f h r =
      elim (Raises-cases (decide py s e config effects n)) [
        | inl ((u, j), eq) ↦
            replay-Remembers u.state j es t m _ _ _ _ _
              (Remembers-step s u.state e c l k b f (decide-Effect py config effects s e n u j eq)
                h)
              (ground arith)
        | inr (x, eq) ↦ ground arith
      ]
