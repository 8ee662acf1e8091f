-- ===== src/Agent/Drive.antt =====
-- When `_drive` and `_run_turns` of agent.py end, and in what status.
use termiclaw.Prelude.{
  ℕ, zero, suc, ◌≤◌, List, [], ◌∷◌, none, some, Bool, true, false, ◌≡◌, ◌≢◌, refl, arith, length,
  inl, inr, if◌then◌else◌,
}
use termiclaw.Errors.{returns, raises}
use termiclaw.Action.{Action-cases}
use termiclaw.State.{State, is_active, with_status}
use termiclaw.Event.{Event, Command, Transition}
use termiclaw.Decide.{decide}
use termiclaw.Decide.Status.{decide-terminal}
use termiclaw.Shell.{apply}
use termiclaw.Agent.{Fueled, Setting, extended, continue_fueled, step, drive_loop, turn, run_turns}

-- A finished computation whose state, if it returned one, is terminal.
abbrev pub EndsTerminal : {W : Type 0} → Fueled W (State × ℕ) → Type 0
EndsTerminal none = ⊥
EndsTerminal (some (raises x, w)) = Unit {0}
EndsTerminal (some (returns (t, m), w)) = is_active t.status ≡ false

module _ {W : Type 0} (c : Setting W) where
  pub step-decided :
      (s : State) (n : ℕ) (cmd : Command) (w : W) (sub : Transition × ℕ) (w' : W)
      → step c s n cmd w ≡ (returns sub, w')
      → (event : Event) × (apply c.ports c.py cmd s c.run_dir c.config w ≡ (returns event, w'))
        × (decide c.py s event c.config c.effects n ≡ returns (sub.0, sub.1))
  unfolding step
  step-decided s n cmd w sub w' eq =
      elim (Action-cases (apply c.ports c.py cmd s c.run_dir c.config w)) [
        | inr (x, v, e) ↦ absurd (ground arith)
        | inl (event, v, e) ↦ (event, ground arith, ground arith)
      ]

  step-terminal :
      (s : State) (n : ℕ) (cmd : Command) (w : W) (sub : Transition × ℕ) (w' : W)
      → step c s n cmd w ≡ (returns sub, w')
      → is_active s.status ≡ false
      → is_active sub.0.state.status ≡ false
  step-terminal s n cmd w sub w' eq over =
      let (event, _, decided) = step-decided s n cmd w sub w' eq in
      decide-terminal c.py c.config c.effects s event n sub.0 sub.1 decided over

  -- In a state that is no longer active, with fuel for each command of the queue, the loop of
  -- _drive ends, and in a state that is not active unless a command raises.
  pub drive_loop-EndsTerminal :
      (fuel : ℕ) (s : State) (n : ℕ) (pending : List Command) (w : W)
      → is_active s.status ≡ false
      → length pending ≤ fuel
      → EndsTerminal (drive_loop c fuel s n pending w)
  unfolding drive_loop
  drive_loop-EndsTerminal zero s n [] w over short = over
  drive_loop-EndsTerminal zero s n (cmd ∷ pending) w over short = absurd (omega arith)
  drive_loop-EndsTerminal (suc fuel) s n [] w over short = over
  drive_loop-EndsTerminal (suc fuel) s n (cmd ∷ pending) w over short =
      elim (Action-cases (step c s n cmd w)) [
        | inr (x, w', eq) ↦ rw eq tt
        | inl (sub, w', eq) ↦
            rw (eq, over)
              (drive_loop-EndsTerminal fuel sub.0.state sub.1 pending (c.ports.hold sub.0.state w')
                (step-terminal s n cmd w sub w' eq over) (omega arith))
      ]

  -- More fuel changes nothing once the queue is empty.
  pub drive_loop-fuel :
      (fuel more : ℕ) (s : State) (n : ℕ) (pending : List Command) (w : W)
      → drive_loop c fuel s n pending w ≢ none
      → fuel ≤ more
      → drive_loop c more s n pending w ≡ drive_loop c fuel s n pending w
  unfolding drive_loop
  drive_loop-fuel zero zero s n [] w done le = refl
  drive_loop-fuel zero (suc more) s n [] w done le = refl
  drive_loop-fuel (suc fuel) zero s n [] w done le = refl
  drive_loop-fuel (suc fuel) (suc more) s n [] w done le = refl
  drive_loop-fuel zero more s n (cmd ∷ pending) w done le = absurd (done refl)
  drive_loop-fuel (suc fuel) zero s n (cmd ∷ pending) w done le = absurd (omega arith)
  drive_loop-fuel (suc fuel) (suc more) s n (cmd ∷ pending) w done le =
      elim (Action-cases (step c s n cmd w)) [
        | inr (x, w', eq) ↦ rw eq
        | inl (sub, w', eq) ↦ rw eq (
            drive_loop-fuel fuel more sub.0.state sub.1 (extended s.status pending sub.0.commands)
              (c.ports.hold sub.0.state w') (rw eq at done) (omega arith))
      ]

  continue-EndsTerminal :
      (o : Fueled W (State × ℕ)) (f : State × ℕ → W → Fueled W (State × ℕ))
      → o ≢ none
      → ((sub : State × ℕ) (w : W) → EndsTerminal (f sub w))
      → EndsTerminal (continue_fueled o f)
  continue-EndsTerminal none f done all = absurd (done refl)
  continue-EndsTerminal (some (raises x, w)) f done all = tt
  continue-EndsTerminal (some (returns sub, w)) f done all = all sub w

  stop_or_go :
      (t : State × ℕ) (w : W) (b : Bool) (next : Fueled W (State × ℕ))
      → is_active t.0.status ≡ b
      → EndsTerminal next
      → EndsTerminal (if b then next else some (returns t, w))
  stop_or_go t w true next e h = h
  stop_or_go t w false next e h = e

  -- If every turn ends on the given fuel, from any state, then _run_turns does, and unless it
  -- raises the run that it returns is not active.
  pub run_turns-EndsTerminal :
      (turns fuel : ℕ) (s : State) (n : ℕ) (w : W)
      → ((s : State) (n : ℕ) (w : W) → turn c fuel s n w ≢ none)
      → EndsTerminal (run_turns c turns fuel s n w)
  unfolding run_turns with_status
  run_turns-EndsTerminal zero fuel s n w done = refl
  run_turns-EndsTerminal (suc turns) fuel s n w done =
      continue-EndsTerminal (turn c fuel s n w) _ (done s n w) (λ sub v.
        stop_or_go sub v (is_active sub.0.status) _ refl
          (run_turns-EndsTerminal turns fuel sub.0 sub.1 v done))
