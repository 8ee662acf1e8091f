-- ===== src/Agent/Ending.antt =====
-- The states that `run` of agent.py returns.
use termiclaw.Prelude.{
  ℕ, zero, suc, pos, Text, [], Option, none, some, false, ◌≡◌, ◌≢◌, refl, sym, subst, ◌∙◌, arith,
  inl, inr, Option-cases, Bool-cases,
}
use termiclaw.Errors.{
  Exception, keyboard_interrupt, called_process_error, Raises, returns, raises, Raises-cases,
  Result, ok, err, ContainerError,
}
use termiclaw.State.{State, active, failed, cancelled, is_active, with_status}
use termiclaw.Action.{Action-cases}
use termiclaw.Decide.Status.{decide-status}
use termiclaw.Decide.Session.{decide-SameRun}
use termiclaw.Agent.{Setting, Fueled, initial_state, turn, run_turns}
use termiclaw.Agent.Keeps.{run_turns_keeps}
use termiclaw.Agent.Run.{
  Drawn, run, finished_with, reraised, closed, begun, sessioned, provisioned, imaged,
  provision_failure, finish, tear_down,
}

-- A state of the run that was drawn, which is over; a cancelled one has nothing of what was done.
pub record Ended (run_id : Text) (t : State) : Type 0 where
  pub over : is_active t.status ≡ false
  pub same : t.run_id ≡ run_id
  pub lost :
      t.status ≡ cancelled
      → (t.current_step ≡ 0) × (t.total_prompt_tokens ≡ pos 0) × (t.recent_steps ≡ [])

-- A state that no turn has touched.
record Untouched (run_id : Text) (s : State) : Type 0 where
  on : s.status ≡ active
  same : s.run_id ≡ run_id
  no_steps : s.current_step ≡ 0
  no_tokens : s.total_prompt_tokens ≡ pos 0
  no_recent : s.recent_steps ≡ []

module _ {W : Type 0} (c : Setting W) where
  run_turns-terminal :
      (turns fuel : ℕ) (s : State) (n : ℕ) (w : W) (t : State) (m : ℕ) (v : W)
      → run_turns c turns fuel s n w ≡ some (returns (t, m), v)
      → is_active t.status ≡ false
  unfolding run_turns with_status
  run_turns-terminal zero fuel s n w t m v h = ground arith
  run_turns-terminal (suc turns) fuel s n w t m v h = elim (Option-cases (turn c fuel s n w)) [
    | inl eq ↦ absurd (ground arith)
    | inr ((r, a), eq) ↦ elim (Raises-cases r) [
      | inr (x, eq') ↦ absurd (ground arith)
      | inl (sub, eq') ↦ elim (Bool-cases (is_active sub.0.status)) [
        | inl on ↦ run_turns-terminal turns fuel sub.0 sub.1 a t m v (ground arith)
        | inr off ↦ ground arith
      ]
    ]
  ]

  abbrev Uncancelled : Text → State → Type 0
  Uncancelled run_id s = (s.status ≢ cancelled) × (s.run_id ≡ run_id)

  run_turns-Ended :
      (turns fuel : ℕ) (run_id : Text) (s : State) (n : ℕ) (w : W) (t : State) (m : ℕ) (v : W)
      → Untouched run_id s
      → run_turns c turns fuel s n w ≡ some (returns (t, m), v)
      → Ended run_id t
  run_turns-Ended turns fuel run_id s n w t m v u h =
      let kept : Uncancelled run_id t =
        run_turns_keeps c (Uncancelled run_id)
          (λ s e n t m eq p. (
            ground (arith, decide-status c.py c.config c.effects s e n t m eq, p.0),
            (decide-SameRun c.py c.config c.effects s e n t m eq).run ∙ p.1,
          ))
          (λ s p. unfold with_status in (λ e. cc, p.1)) turns fuel s n w t m v h
          (λ e. ground (arith, u.on), u.same) in
      record {
        over = run_turns-terminal turns fuel s n w t m v h;
        same = kept.1;
        lost = λ e. absurd (kept.0 e);
      }

  with_status-Ended :
      (run_id : Text) (s : State) → Untouched run_id s → Ended run_id (with_status s failed)
  unfolding with_status
  with_status-Ended run_id s u = record {
    over = refl;
    same = u.same;
    lost = λ e. absurd (ground arith);
  }

  cancelled-Ended :
      (run_id : Text) (s : State) → Untouched run_id s → Ended run_id (with_status s cancelled)
  unfolding with_status
  cancelled-Ended run_id s u = record {
    over = refl;
    same = u.same;
    lost = λ e. (u.no_steps, u.no_tokens, u.no_recent);
  }

  finished_with_lem :
      (s t : State) (o : Raises (Unit {0}) × W) (v : W)
      → finished_with c s o ≡ (returns t, v)
      → t ≡ s
  unfolding finished_with
  finished_with_lem s t (returns u, w) v h = ground arith
  finished_with_lem s t (raises x, w) v h = absurd (ground arith)

  reraised_lem :
      (x : Exception) (o : Raises (Unit {0}) × W) (t : State) (v : W)
      → reraised c x o ≢ (returns t, v)
  unfolding reraised
  reraised_lem x (returns u, w) t v h = ground arith
  reraised_lem x (raises y, w) t v h = ground arith

  provision_failure-Ended :
      (drawn : Drawn) (s t : State) (w v : W)
      → Untouched drawn.run_id s
      → provision_failure c drawn s w ≡ (returns t, v)
      → Ended drawn.run_id t
  unfolding provision_failure
  provision_failure-Ended drawn s t w v u h =
      let stopped = with_status s failed in
      subst (Ended drawn.run_id)
        (sym (finished_with_lem stopped t (tear_down c drawn stopped w) v h))
        (with_status-Ended drawn.run_id s u)

  closed-Ended :
      (drawn : Drawn) (s : State) (o : Fueled W (State × ℕ)) (t : State) (v : W)
      → Untouched drawn.run_id s
      → ((r : State) (m : ℕ) (w : W) → o ≡ some (returns (r, m), w) → Ended drawn.run_id r)
      → closed c drawn s o ≡ some (returns t, v)
      → Ended drawn.run_id t
  unfolding closed
  closed-Ended drawn s none t v u turns h = absurd (ground arith)
  closed-Ended drawn s (some (returns (r, m), w)) t v u turns h =
      subst (Ended drawn.run_id) (sym (finished_with_lem r t (finish c drawn r w) v (ground arith)))
        (turns r m w refl)
  closed-Ended drawn s (some (raises keyboard_interrupt, w)) t v u turns h =
      let stopped = with_status s cancelled in
      subst (Ended drawn.run_id)
        (sym (finished_with_lem stopped t (finish c drawn stopped w) v (ground arith)))
        (cancelled-Ended drawn.run_id s u)
  closed-Ended drawn s (some (raises x, w)) t v u turns h =
      absurd (reraised_lem x (finish c drawn s w) t v (ground arith))

  begun-Ended :
      (fuel : ℕ) (drawn : Drawn) (s t : State) (w v : W)
      → Untouched drawn.run_id s
      → begun c fuel drawn s w ≡ some (returns t, v)
      → Ended drawn.run_id t
  unfolding begun
  begun-Ended fuel drawn s t w v u h = elim (Action-cases (c.ports.persistence.insert_run s w)) [
    | inr (x, a, eq) ↦ absurd (ground arith)
    | inl (_, a, eq) ↦
        closed-Ended drawn s (run_turns c s.max_turns fuel s 0 a) t v u
          (λ r m b e. run_turns-Ended s.max_turns fuel drawn.run_id s 0 a r m b u e) (rw eq at h)
  ]

  sessioned-Ended :
      (fuel : ℕ) (drawn : Drawn) (s t : State) (o : Raises (Unit {0}) × W) (v : W)
      → Untouched drawn.run_id s
      → sessioned c fuel drawn s o ≡ some (returns t, v)
      → Ended drawn.run_id t
  unfolding sessioned
  sessioned-Ended fuel drawn s t (returns _, w) v u h = begun-Ended fuel drawn s t w v u h
  sessioned-Ended fuel drawn s t (raises called_process_error, w) v u h =
      provision_failure-Ended drawn s t w v u (ground arith)
  sessioned-Ended fuel drawn s t (raises x, w) v u h = absurd (ground arith)

  contained-Untouched :
      (run_id : Text) (s : State) (id : Text)
      → Untouched run_id s
      → Untouched run_id (record s { container_id = id })
  contained-Untouched run_id s id u = record {
    on = u.on;
    same = u.same;
    no_steps = u.no_steps;
    no_tokens = u.no_tokens;
    no_recent = u.no_recent;
  }

  provisioned-Ended :
      (fuel : ℕ) (drawn : Drawn) (s t : State) (r : Result Text ContainerError) (w v : W)
      → Untouched drawn.run_id s
      → provisioned c fuel drawn s r w ≡ some (returns t, v)
      → Ended drawn.run_id t
  unfolding provisioned
  provisioned-Ended fuel drawn s t (err e) w v u h =
      provision_failure-Ended drawn s t w v u (ground arith)
  provisioned-Ended fuel drawn s t (ok id) w v u h =
      sessioned-Ended fuel drawn (record s { container_id = id }) t _ v
        (contained-Untouched drawn.run_id s id u) h

  imaged-Ended :
      (fuel : ℕ) (drawn : Drawn) (s t : State) (r : Result Text ContainerError) (w v : W)
      → Untouched drawn.run_id s
      → imaged c fuel drawn s r w ≡ some (returns t, v)
      → Ended drawn.run_id t
  unfolding imaged
  imaged-Ended fuel drawn s t (err e) w v u h =
      provision_failure-Ended drawn s t w v u (ground arith)
  imaged-Ended fuel drawn s t (ok image) w v u h =
      elim (Action-cases (c.ports.container.provision_container image c.config.docker_network w)) [
        | inr (x, a, eq) ↦ absurd (ground arith)
        | inl (r, a, eq) ↦ provisioned-Ended fuel drawn s t r a v u (rw eq at h)
      ]

  initial_state-Untouched :
      (drawn : Drawn) (parent : Option State)
      → Untouched drawn.run_id
          (initial_state c.config drawn.run_id drawn.session_id drawn.started parent)
  unfolding initial_state
  initial_state-Untouched drawn parent = record {
    on = refl;
    same = refl;
    no_steps = refl;
    no_tokens = refl;
    no_recent = refl;
  }

  -- Every state that run returns, on any fuel and over any ports, is not active and has the run
  -- id that was drawn; and if it is cancelled, its step counter and its tokens are 0 and it has
  -- no recent steps.
  pub run-Ended :
      (fuel : ℕ) (drawn : Drawn) (parent : Option State) (w : W) (t : State) (v : W)
      → run c fuel drawn parent w ≡ some (returns t, v)
      → Ended drawn.run_id t
  unfolding run
  run-Ended fuel drawn parent w t v h =
      let s = initial_state c.config drawn.run_id drawn.session_id drawn.started parent in
      elim (Action-cases (c.ports.container.ensure_image (c.ports.hold s w))) [
        | inr (x, a, eq) ↦ absurd (ground arith)
        | inl (r, a, eq) ↦
            imaged-Ended fuel drawn s t r a v (initial_state-Untouched drawn parent) (rw eq at h)
      ]
