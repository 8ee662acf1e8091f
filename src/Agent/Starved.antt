-- ===== src/Agent/Starved.antt =====
-- Runs of agent.py whose tokens are past the dump threshold.
use termiclaw.Prelude.{ℕ, zero, suc, ◌+◌, Text, [], some, Bool, true, ◌≡◌, refl, arith}
use termiclaw.Errors.{returns}
use termiclaw.Model.{StepRecord, PlannerUsage}
use termiclaw.State.{State, failed, is_active, with_step, with_status}
use termiclaw.Event.{loop_tick, artifacts_refreshed, step_logged, refresh_artifacts, log_step}
use termiclaw.Decide.{zero_usage}
use termiclaw.Decide.Starved.{Starved, Starved-tick, Starved-step, refreshed-logs, logged-steps}
use termiclaw.Shell.{apply}
use termiclaw.Agent.{Setting, step, drive_loop, drive, turn_event, turn, run_turns}

-- Ports under which the session lives, no result is polled, and refreshes and logging succeed.
pub record Refreshing {W : Type 0} (c : Setting W) : Type 0 where
  pub ticks :
      (s : State) (w : W)
      → (ready : Bool) × (v : W) × (turn_event c s w ≡ (returns (loop_tick ready true), v))
  pub refreshes :
      (s : State) (trigger : Text) (w : W)
      → (v : W) × (apply c.ports c.py (refresh_artifacts trigger) s c.run_dir c.config w
          ≡ (returns (artifacts_refreshed trigger), v))
  pub logs :
      (s : State) (r : StepRecord) (usage : PlannerUsage) (w : W)
      → (v : W) × (apply c.ports c.py (log_step r usage) s c.run_dir c.config w
          ≡ (returns (step_logged r), v))

-- What the turns leave: a failed run that has logged a marker for each turn, and whose terminal
-- buffer, tokens and Claude session are those it began with.
pub record OnlyRefreshed (s : State) (turns : ℕ) (t : State) : Type 0 where
  pub failed_run : t.status ≡ failed
  pub markers : t.current_step ≡ s.current_step + turns
  pub no_buffer : t.previous_buffer ≡ s.previous_buffer
  pub no_tokens : t.total_prompt_tokens ≡ s.total_prompt_tokens
  pub no_session : t.claude_session_id ≡ s.claude_session_id

module _ {W : Type 0} (c : Setting W) (fine : Refreshing c) where
  -- One turn: the refresh, its marker step, and nothing else.
  turn-Starved :
      (fuel : ℕ) (s : State) (n : ℕ) (w : W)
      → is_active s.status ≡ true
      → Starved s c.config
      → (r : StepRecord) × (v : W) × (turn c (suc (suc fuel)) s n w
          ≡ some (returns (with_step s r 20, n + 1), v))
  unfolding turn drive drive_loop step
  turn-Starved fuel s n w on h =
      let (ready, w₁, ticked) = fine.ticks s (c.ports.hold s w) in
      let (trigger, decided) = Starved-tick c.py c.config c.effects s ready n h in
      let (w₂, applied) = fine.refreshes s trigger (c.ports.hold s w₁) in
      let (r, marked) = refreshed-logs c.py c.config c.effects s trigger n in
      let (w₃, written) = fine.logs s r zero_usage (c.ports.hold s w₂) in
      let counted = logged-steps c.py c.config c.effects s r (n + 1) in
      (
        r,
        c.ports.hold (with_step s r 20) w₃,
        rw (ticked, decided, applied, marked, on, written, counted, on) (last fuel _ _ _),
      )
    where
      last :
          (fuel : ℕ) (s : State) (n : ℕ) (w : W)
          → drive_loop c fuel s n [] w ≡ some (returns (s, n), w)
      last zero s n w = refl
      last (suc fuel) s n w = refl

  -- If the session lives, no result of a summarization arrives and refreshes and logs do not
  -- fail, then from an active state with a logged step and with tokens at the dump threshold or
  -- past it, for an interval other than 0, _run_turns on any number of turns and on fuel 2 or
  -- more returns a failed state that has one more logged step for each turn and the buffer, the
  -- tokens and the Claude session that it began with.
  pub run_turns-Starved :
      (turns fuel : ℕ) (s : State) (n : ℕ) (w : W)
      → is_active s.status ≡ true
      → Starved s c.config
      → (t : State) × (m : ℕ) × (v : W) × (run_turns c turns (suc (suc fuel)) s n w
          ≡ some (returns (t, m), v))
        × OnlyRefreshed s turns t
  unfolding run_turns with_status
  run_turns-Starved zero fuel s n w on h = (
    with_status s failed,
    n,
    w,
    refl,
    record {
      failed_run = refl;
      markers = omega arith;
      no_buffer = refl;
      no_tokens = refl;
      no_session = refl;
    },
  )
  run_turns-Starved (suc turns) fuel s n w on h =
      let (r, w', one) = turn-Starved fuel s n w on h in
      let on' : is_active (with_step s r 20).status ≡ true = unfold with_step in on in
      let (t, m, v, rest, left) =
        run_turns-Starved turns fuel (with_step s r 20) (n + 1) w' on'
          (Starved-step s c.config r 20 h) in
      (t, m, v, rw (one, on') rest, after s r turns t left)
    where
      after :
          (s : State) (r : StepRecord) (turns : ℕ) (t : State)
          → OnlyRefreshed (with_step s r 20) turns t
          → OnlyRefreshed s (suc turns) t
      after s r turns t left = unfold with_step in ground arith
