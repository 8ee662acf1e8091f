-- ===== src/Agent/Keeps.antt =====
-- What a run keeps: a property of states that every transition keeps, carried over the whole loop.
use termiclaw.Prelude.{
  ℕ, zero, suc, List, [], ◌∷◌, some, ◌≡◌, subst, arith, inl, inr, Option-cases, Bool-cases,
}
use termiclaw.Errors.{returns, Raises-cases}
use termiclaw.State.{State, failed, is_active, with_status}
use termiclaw.Event.{Event, Command, Transition}
use termiclaw.Action.{Action-cases}
use termiclaw.Decide.{decide}
use termiclaw.Agent.{Setting, step, drive_loop, drive, extended, turn_event, turn, run_turns}
use termiclaw.Agent.Drive.{step-decided}

module _ {W : Type 0} (c : Setting W) (P : State → Type 0)
    (decides : (s : State) (e : Event) (n : ℕ) (t : Transition) (m : ℕ)
      → decide c.py s e c.config c.effects n ≡ returns (t, m)
      → P s
      → P t.state)
    (fails : (s : State) → P s → P (with_status s failed)) where
  drive_loop_keeps :
      (fuel : ℕ) (s : State) (n : ℕ) (pending : List Command) (w : W) (t : State) (m : ℕ) (v : W)
      → drive_loop c fuel s n pending w ≡ some (returns (t, m), v)
      → P s
      → P t
  unfolding drive_loop
  drive_loop_keeps zero s n [] w t m v h p = subst P (ground arith) p
  drive_loop_keeps (suc fuel) s n [] w t m v h p = subst P (ground arith) p
  drive_loop_keeps zero s n (cmd ∷ pending) w t m v h p = absurd (ground arith)
  drive_loop_keeps (suc fuel) s n (cmd ∷ pending) w t m v h p =
      elim (Action-cases (step c s n cmd w)) [
        | inr (x, w', eq) ↦ absurd (ground arith)
        | inl (sub, w', eq) ↦
            let (e, _, decided) = step-decided c s n cmd w sub w' eq in
            drive_loop_keeps fuel sub.0.state sub.1 (extended s.status pending sub.0.commands)
              (c.ports.hold sub.0.state w') t m v (rw eq at h) (decides s e n sub.0 sub.1 decided p)
      ]

  drive_keeps :
      (fuel : ℕ) (s : State) (n : ℕ) (e : Event) (w : W) (t : State) (m : ℕ) (v : W)
      → drive c fuel s n e w ≡ some (returns (t, m), v)
      → P s
      → P t
  unfolding drive
  drive_keeps fuel s n e w t m v h p = elim (Raises-cases (decide c.py s e c.config c.effects n)) [
    | inr (x, eq) ↦ absurd (ground arith)
    | inl ((u, j), eq) ↦
        drive_loop_keeps fuel u.state j u.commands (c.ports.hold u.state w) t m v (ground arith)
          (decides s e n u j eq p)
  ]

  turn_keeps :
      (fuel : ℕ) (s : State) (n : ℕ) (w : W) (t : State) (m : ℕ) (v : W)
      → turn c fuel s n w ≡ some (returns (t, m), v)
      → P s
      → P t
  unfolding turn
  turn_keeps fuel s n w t m v h p = elim (Action-cases (turn_event c s (c.ports.hold s w))) [
    | inr (x, a, eq) ↦ absurd (ground arith)
    | inl (e, a, eq) ↦ drive_keeps fuel s n e a t m v (ground arith) p
  ]

  pub run_turns_keeps :
      (turns fuel : ℕ) (s : State) (n : ℕ) (w : W) (t : State) (m : ℕ) (v : W)
      → run_turns c turns fuel s n w ≡ some (returns (t, m), v)
      → P s
      → P t
  unfolding run_turns
  run_turns_keeps zero fuel s n w t m v h p = subst P (ground arith) (fails s p)
  run_turns_keeps (suc turns) fuel s n w t m v h p = elim (Option-cases (turn c fuel s n w)) [
    | inl eq ↦ absurd (ground arith)
    | inr ((r, a), eq) ↦ elim (Raises-cases r) [
      | inr (x, eq') ↦ absurd (ground arith)
      | inl (sub, eq') ↦ elim (Bool-cases (is_active sub.0.status)) [
        | inl on ↦
            run_turns_keeps turns fuel sub.0 sub.1 a t m v (ground arith)
              (turn_keeps fuel s n w sub.0 sub.1 a (ground arith) p)
        | inr off ↦ turn_keeps fuel s n w t m v (ground arith) p
      ]
    ]
  ]
