-- ===== src/Agent/Rows.antt =====
-- The steps table over a whole run of agent.py.
use termiclaw.Prelude.{
  ℕ, zero, suc, ◌+◌, List, [], ◌∷◌, ◌++◌, append-nil, append_assoc, Option, none, some, Bool, ◌≡◌,
  refl, sym, ◌∙◌, ap, arith, length, length-append, inl, inr, Option-cases, Bool-cases,
}
use termiclaw.Errors.{returns, Raises-cases, Result, ok, err, SummarizationError}
use termiclaw.Ports.{SummarizationComplete}
use termiclaw.Model.{StepRecord}
use termiclaw.State.{State, is_active, with_status}
use termiclaw.Event.{Event, step_logged, Command, Transition}
use termiclaw.Action.{Action-cases}
use termiclaw.Decide.{decide}
use termiclaw.Decide.Effect.{decide-Effect, count_after}
use termiclaw.Shell.Rows.{numbered, StepTable, logged, apply-rows}
use termiclaw.Agent.{
  Setting, step, drive_loop, drive, extended, tick_or_poll, turn_event, turn, run_turns,
}
use termiclaw.Agent.Drive.{step-decided}

numbered-append :
    (k : ℕ) (xs ys : List StepRecord)
    → numbered k (xs ++ ys) ≡ numbered k xs ++ numbered (k + length xs) ys
numbered-append k [] ys = let e : k + 0 ≡ k = omega arith in rw e
numbered-append k (x ∷ xs) ys =
    let e : k + suc (length xs) ≡ k + 1 + length xs = omega arith in
    rw (e, numbered-append (k + 1) xs ys)

count_after-logged : (n : ℕ) (e : Event) → count_after n e ≡ n + length (logged e)
count_after-logged n (step_logged r) = omega arith
count_after-logged n e = omega arith

module _ {W : Type 0} (c : Setting W) (table : StepTable c.ports) where
  open table use {rows}

  -- From `s` and `w` to `t` and `v` the table grew by the steps `new`, numbered on from the
  -- counter, and the counter grew with it.
  pub record Wrote (s : State) (w : W) (t : State) (v : W) : Type 0 where
    pub new : List StepRecord
    pub grew : rows v ≡ rows w ++ numbered s.current_step new
    pub counted : t.current_step ≡ s.current_step + length new

  Wrote-none :
      (s : State) (w : W) (t : State) (v : W)
      → rows v ≡ rows w
      → t.current_step ≡ s.current_step
      → Wrote s w t v
  Wrote-none s w t v same count = record {
    new = [];
    grew = same ∙ sym (append-nil (rows w));
    counted = omega arith;
  }

  Wrote-trans :
      {s : State} {w : W} {t : State} {v : W} {u : State} {x : W}
      → Wrote s w t v
      → Wrote t v u x
      → Wrote s w u x
  Wrote-trans {s} {w} {t} {v} {u} {x} a b = record {
    new = a.new ++ b.new;
    grew =
        b.grew
        ∙ ap (λ r. r ++ numbered t.current_step b.new) a.grew
        ∙ append_assoc (rows w) (numbered s.current_step a.new) (numbered t.current_step b.new)
        ∙ ap (λ k. rows w ++ (numbered s.current_step a.new ++ numbered k b.new)) a.counted
        ∙ ap (λ r. rows w ++ r) (sym (numbered-append s.current_step a.new b.new));
    counted = omega (arith, a.counted, b.counted, length-append a.new b.new);
  }

  step-Wrote :
      (s : State) (n : ℕ) (cmd : Command) (w : W) (sub : Transition × ℕ) (v : W)
      → step c s n cmd w ≡ (returns sub, v)
      → Wrote s w sub.0.state v
  step-Wrote s n cmd w sub v eq =
      let (e, applied, decided) = step-decided c s n cmd w sub v eq in
      record {
        new = logged e;
        grew = apply-rows c.ports table c.py cmd s c.run_dir c.config w v e applied;
        counted =
            (decide-Effect c.py c.config c.effects s e n sub.0 sub.1 decided).count
            ∙ count_after-logged s.current_step e;
      }

  held : {s : State} {w : W} {t : State} {v : W} → Wrote s w t v → Wrote s w t (c.ports.hold t v)
  held {s} {w} {t} {v} a = record {
    new = a.new;
    grew = table.holds t v ∙ a.grew;
    counted = a.counted;
  }

  drive_loop-Wrote :
      (fuel : ℕ) (s : State) (n : ℕ) (pending : List Command) (w : W) (t : State) (m : ℕ) (v : W)
      → drive_loop c fuel s n pending w ≡ some (returns (t, m), v)
      → Wrote s w t v
  unfolding drive_loop
  drive_loop-Wrote zero s n [] w t m v h = Wrote-none s w t v (ground arith) (ground arith)
  drive_loop-Wrote (suc fuel) s n [] w t m v h = Wrote-none s w t v (ground arith) (ground arith)
  drive_loop-Wrote zero s n (cmd ∷ pending) w t m v h = absurd (ground arith)
  drive_loop-Wrote (suc fuel) s n (cmd ∷ pending) w t m v h =
      elim (Action-cases (step c s n cmd w)) [
        | inr (x, w', eq) ↦ absurd (ground arith)
        | inl (sub, w', eq) ↦ Wrote-trans (held (step-Wrote s n cmd w sub w' eq)) (
            drive_loop-Wrote fuel sub.0.state sub.1 (extended s.status pending sub.0.commands)
              (c.ports.hold sub.0.state w') t m v (rw eq at h))
      ]

  drive-Wrote :
      (fuel : ℕ) (s : State) (n : ℕ) (e : Event) (w : W) (t : State) (m : ℕ) (v : W)
      → logged e ≡ []
      → drive c fuel s n e w ≡ some (returns (t, m), v)
      → Wrote s w t v
  unfolding drive
  drive-Wrote fuel s n e w t m v quiet h =
      elim (Raises-cases (decide c.py s e c.config c.effects n)) [
        | inr (x, eq) ↦ absurd (ground arith)
        | inl ((u, j), eq) ↦
            Wrote-trans
              (held (
                Wrote-none s w u.state w refl
                  ((decide-Effect c.py c.config c.effects s e n u j eq).count ∙ same e quiet)))
              (drive_loop-Wrote fuel u.state j u.commands (c.ports.hold u.state w) t m v
                (ground arith))
      ]
    where
      same : (e : Event) → logged e ≡ [] → count_after s.current_step e ≡ s.current_step
      same e quiet = ground (arith, count_after-logged s.current_step e)

  tick_or_poll-quiet :
      (alive : Bool) (p : Option (Result SummarizationComplete SummarizationError)) (w v : W)
      (e : Event)
      → tick_or_poll c alive p w ≡ (returns e, v)
      → (logged e ≡ []) × (rows v ≡ rows w)
  unfolding tick_or_poll
  tick_or_poll-quiet alive (some (ok d)) w v e h = ground arith
  tick_or_poll-quiet alive (some (err d)) w v e h = ground arith
  tick_or_poll-quiet alive none w v e h = ground (arith, table.idles w)

  turn_event-quiet :
      (s : State) (w v : W) (e : Event)
      → turn_event c s w ≡ (returns e, v)
      → (logged e ≡ []) × (rows v ≡ rows w)
  unfolding turn_event
  turn_event-quiet s w v e h =
      elim (Action-cases (c.ports.container.is_session_alive s.container_id s.tmux_session w)) [
        | inr (x, a, eq) ↦ absurd (ground arith)
        | inl (alive, a, eq) ↦ elim (Action-cases (c.ports.summarize.poll a)) [
          | inr (x, b, eq') ↦ absurd (ground arith)
          | inl (p, b, eq') ↦
              let last = tick_or_poll-quiet alive p b v e (ground arith) in
              ground (arith, last, table.polls a, table.alives s.container_id s.tmux_session w)
        ]
      ]

  turn-Wrote :
      (fuel : ℕ) (s : State) (n : ℕ) (w : W) (t : State) (m : ℕ) (v : W)
      → turn c fuel s n w ≡ some (returns (t, m), v)
      → Wrote s w t v
  unfolding turn
  turn-Wrote fuel s n w t m v h = elim (Action-cases (turn_event c s (c.ports.hold s w))) [
    | inr (x, a, eq) ↦ absurd (ground arith)
    | inl (e, a, eq) ↦
        let (quiet, same) = turn_event-quiet s (c.ports.hold s w) a e eq in
        Wrote-trans (Wrote-none s w s a (same ∙ table.holds s w) refl)
          (drive-Wrote fuel s n e a t m v quiet (ground arith))
  ]

  -- For ports whose insert_step appends one row to the steps table and whose other calls leave
  -- it: whenever _run_turns returns, on any turns and fuel, the rows it added are numbered
  -- consecutively from the step counter that it began with, and the counter has grown by the
  -- number of rows.
  pub run_turns-Wrote :
      (turns fuel : ℕ) (s : State) (n : ℕ) (w : W) (t : State) (m : ℕ) (v : W)
      → run_turns c turns fuel s n w ≡ some (returns (t, m), v)
      → Wrote s w t v
  unfolding run_turns with_status
  run_turns-Wrote zero fuel s n w t m v h = Wrote-none s w t v (ground arith) (ground arith)
  run_turns-Wrote (suc turns) fuel s n w t m v h = elim (Option-cases (turn c fuel s n w)) [
    | inl eq ↦ absurd (ground arith)
    | inr ((r, a), eq) ↦ elim (Raises-cases r) [
      | inr (x, eq') ↦ absurd (ground arith)
      | inl (sub, eq') ↦ elim (Bool-cases (is_active sub.0.status)) [
        | inl on ↦
            Wrote-trans (turn-Wrote fuel s n w sub.0 sub.1 a (ground arith))
              (run_turns-Wrote turns fuel sub.0 sub.1 a t m v (ground arith))
        | inr off ↦ turn-Wrote fuel s n w t m v (ground arith)
      ]
    ]
  ]
