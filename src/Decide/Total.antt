-- ===== src/Decide/Total.antt =====
-- decide.py: the exceptions that a transition can raise. The remainder by the dump interval is the
-- one operation in it that can.
use termiclaw.Prelude.{
  ℕ, List, [], ◌∷◌, ◌++◌, Text, Bool, ◌&&◌, ◌==◌, ◌⊎◌, ◌↔◌, ap, sym, ◌≡◌, refl, arith,
  if◌then◌else◌, inl, inr, ◌∙◌, Bool-cases, true, false, not,
}
use termiclaw.Errors.{Raises, returns, raises, Raises-cases, zero_division}
use termiclaw.Python.{Builtins}
use termiclaw.Model.{Config}
use termiclaw.State.{State}
use termiclaw.Event.{Event, loop_tick, planner_responded, Transition}
use termiclaw.Core.{artifact_refresh_trigger}
use termiclaw.Decide.{
  DecideEffects, Decided, decide, on_loop_tick, after_trigger, on_planner_responded,
  handle_completion, send_and_log, on_observation, on_planner_failed,
}
use termiclaw.Decide.History.{replay}

abbrev Returns : Decided → Type 0
Returns (returns r) = Unit {0}
Returns (raises x) = ⊥

Returns-if : (b : Bool) (c d : Decided) → Returns c → Returns d → Returns (if b then c else d)
Returns-if true c d hc hd = hc
Returns-if false c d hc hd = hd

-- A tick that found the session alive.
abbrev pub ticks_on : Event → Bool
ticks_on (loop_tick ready alive) = alive
ticks_on e = false

module _ (py : Builtins) (config : Config) (effects : DecideEffects) where
  -- A tick of a live session that comes to a state with a logged step, somewhere in a history.
  abbrev pub ReachesTick : State → ℕ → List Event → Type 0
  ReachesTick s n es =
      (before : List Event) × (e : Event) × (after : List Event) × (t : State) × (m : ℕ) × (es
        ≡ before ++ e ∷ after)
      × (replay py config effects s n before ≡ returns (t, m))
      × (ticks_on e ≡ true)
      × ((t.current_step == 0) ≡ false)

  -- The test that the code does not make.
  abbrev crashes : State → Event → Bool
  crashes s e = ticks_on e && not (s.current_step == 0) && (config.state_dump_interval_turns == 0)

  tick-crashes :
      (s : State) (e : Event) (n : ℕ)
      → ticks_on e ≡ true
      → (s.current_step == 0) ≡ false
      → (config.state_dump_interval_turns == 0) ≡ true
      → decide py s e config effects n ≡ raises zero_division
  unfolding decide on_loop_tick after_trigger artifact_refresh_trigger
  tick-crashes s (loop_tick ready true) n on stepped zero_interval =
      rw (stepped, zero_interval) refl
  tick-crashes s (loop_tick ready false) n on stepped zero_interval = absurd (cc on)
  tick-crashes s e n on stepped zero_interval = absurd (cc on)

  trigger-Returns :
      (s : State) (ready : Bool) (n : ℕ) (r : Raises Text)
      → artifact_refresh_trigger s config ≡ r
      → (not (s.current_step == 0) && (config.state_dump_interval_turns == 0)) ≡ false
      → Returns (after_trigger py s config ready n r)
  unfolding artifact_refresh_trigger after_trigger
  trigger-Returns s ready n (raises x) e quiet = absurd (ground arith)
  trigger-Returns s ready n (returns []) e quiet = tt
  trigger-Returns s ready n (returns (c ∷ t)) e quiet = tt

  decide-Returns :
      (s : State) (e : Event) (n : ℕ)
      → crashes s e ≡ false
      → Returns (decide py s e config effects n)
  unfolding decide on_loop_tick on_planner_responded handle_completion send_and_log on_observation
      on_planner_failed
  decide-Returns s (loop_tick ready false) n quiet = tt
  decide-Returns s (loop_tick ready true) n quiet =
      trigger-Returns s ready n (artifact_refresh_trigger s config) refl quiet
  decide-Returns s (planner_responded parsed usage) n quiet =
      Returns-if parsed.task_complete _ _ (Returns-if s.pending_completion _ _ tt tt) tt
  decide-Returns s e n quiet = tt

  opened :
      (s : State) (n : ℕ) (e : Event) (es : List Event) (u : Transition) (j : ℕ)
      (r : Raises (State × ℕ))
      → decide py s e config effects n ≡ returns (u, j)
      → replay py config effects u.state j es ≡ r
      → replay py config effects s n (e ∷ es) ≡ r
  unfolding replay
  opened s n e es u j r eq rest = rw (replay, eq) rest

  -- How a history ends: in a state, or by the exception at a tick that it reaches.
  abbrev pub Ends : State → ℕ → List Event → Type 0
  Ends s n es =
      ((t : State) × (m : ℕ) × (replay py config effects s n es ≡ returns (t, m)))
      ⊎ ((config.state_dump_interval_turns ≡ 0) × ReachesTick s n es)

  replay-Ends : (s : State) (n : ℕ) (es : List Event) → Ends s n es
  unfolding replay
  replay-Ends s n [] = inl (s, n, refl)
  replay-Ends s n (e ∷ es) = elim (Bool-cases (crashes s e)) [
    | inl crash ↦ inr (ground arith, ([], e, es, s, n, refl, refl, ground arith, ground arith))
    | inr quiet ↦ elim (Raises-cases (decide py s e config effects n)) [
      | inr (x, eq) ↦ absurd (rw eq at (decide-Returns s e n quiet))
      | inl ((u, j), eq) ↦ elim (replay-Ends u.state j es) [
        | inl (t, m, rest) ↦ inl (t, m, opened s n e es u j (returns (t, m)) eq rest)
        | inr (zero_interval, (before, f, after, t, m, split, rest, on, stepped)) ↦ inr (
          zero_interval,
          (
            e ∷ before,
            f,
            after,
            t,
            m,
            ap (λ l. e ∷ l) split,
            opened s n e before u j (returns (t, m)) eq rest,
            on,
            stepped,
          ),
        )
      ]
    ]
  ]

  replay-raises :
      (s : State) (n : ℕ) (before : List Event) (e : Event) (after : List Event) (t : State) (m : ℕ)
      → config.state_dump_interval_turns ≡ 0
      → replay py config effects s n before ≡ returns (t, m)
      → ticks_on e ≡ true
      → (t.current_step == 0) ≡ false
      → replay py config effects s n (before ++ e ∷ after) ≡ raises zero_division
  unfolding replay
  replay-raises s n [] e after t m zero_interval ran on stepped =
      let here : (s.current_step == 0) ≡ false =
        ap (λ (p : State × ℕ). p.0.current_step == 0) (got ran) ∙ stepped in
      let crash = tick-crashes s e n on here (ground (arith, zero_interval)) in
      rw (replay, crash) refl
    where
      got : {a b : State × ℕ} → returns a ≡ returns b → a ≡ b
      got r = cc r
  replay-raises s n (f ∷ before) e after t m zero_interval ran on stepped =
      elim (Raises-cases (decide py s f config effects n)) [
        | inr (x, eq) ↦ absurd (cc (rw (replay, eq) at ran))
        | inl ((u, j), eq) ↦ opened s n f (before ++ e ∷ after) u j (raises zero_division) eq (
            replay-raises u.state j before e after t m zero_interval (rw (replay, eq) at ran) on
              stepped)
      ]

  -- Every history of events, from every state, either is handled to its end, or raises
  -- ZeroDivisionError; and it raises that exactly if the dump interval is 0 and a tick of a live
  -- session comes to a state with a logged step.
  pub replay_total :
      (s : State) (n : ℕ) (es : List Event)
      → (((t : State) × (m : ℕ) × (replay py config effects s n es ≡ returns (t, m)))
          ⊎ (replay py config effects s n es ≡ raises zero_division))
        × ((replay py config effects s n es ≡ raises zero_division)
            ↔ ((config.state_dump_interval_turns ≡ 0) × ReachesTick s n es))
  replay_total s n es =
      (outcome (replay-Ends s n es), (λ e. reached e (replay-Ends s n es), crashed))
    where
      crashed :
          (config.state_dump_interval_turns ≡ 0) × ReachesTick s n es
          → replay py config effects s n es ≡ raises zero_division
      crashed (zero_interval, (before, e, after, t, m, split, ran, on, stepped)) =
          ap (replay py config effects s n) split
          ∙ replay-raises s n before e after t m zero_interval ran on stepped

      outcome :
          Ends s n es
          → ((t : State) × (m : ℕ) × (replay py config effects s n es ≡ returns (t, m)))
            ⊎ (replay py config effects s n es ≡ raises zero_division)
      outcome (inl end) = inl end
      outcome (inr reach) = inr (crashed reach)

      reached :
          replay py config effects s n es ≡ raises zero_division
          → Ends s n es
          → (config.state_dump_interval_turns ≡ 0) × ReachesTick s n es
      reached e (inl (t, m, r)) = absurd (cc (sym r ∙ e))
      reached e (inr reach) = reach
