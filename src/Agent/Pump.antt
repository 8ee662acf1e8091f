-- ===== src/Agent/Pump.antt =====
-- Runs of agent.py's `_drive` in which no port fails and the planner always goes on.
use termiclaw.Prelude.{
  ℕ, zero, suc, Text, List, [], ◌∷◌, ◌++◌, Option, none, Bool, true, ◌≡◌, refl, arith, All-append,
  ◌||◌,
}
use termiclaw.Float.{Float}
use termiclaw.Errors.{returns}
use termiclaw.Model.{ParseResult, PlannerUsage, StepRecord}
use termiclaw.State.{State, is_active}
use termiclaw.Event.{
  Event, observation_captured, planner_responded, command_acked, step_logged, Command, observe,
  send_keys, query_planner, log_step, Transition,
}
use termiclaw.Decide.Calm.{
  is_calm, is_pump, has_pump, IsCalm, GoesOn, Spawns, Decides, observation-Spawns, ack-Spawns,
  log-Spawns, response-Spawns,
}
use termiclaw.Shell.{apply}
use termiclaw.Agent.{Setting, step, drive_loop}

-- Ports under which nothing fails and the planner always goes on.
pub record Undisturbed {W : Type 0} (c : Setting W) : Type 0 where
  pub observes :
      (s : State) (w : W)
      → (text buf : Text) × (v : W) × (apply c.ports c.py observe s c.run_dir c.config w
          ≡ (returns (observation_captured text buf), v))
  pub sends :
      (s : State) (keystrokes : Text) (seconds : Float) (w : W)
      → (seen : Bool) × (v : W) × (apply c.ports c.py
            (send_keys keystrokes seconds)
            s
            c.run_dir
            c.config
            w
          ≡ (returns (command_acked seen), v))
  pub answers :
      (s : State) (prompt : Text) (first : Bool) (parent : Option Text) (fork : Bool) (w : W)
      → (parsed : ParseResult) × (usage : PlannerUsage) × (v : W) × (apply c.ports c.py
            (query_planner prompt first parent fork)
            s
            c.run_dir
            c.config
            w
          ≡ (returns (planner_responded parsed usage), v))
        × GoesOn parsed
  pub logs :
      (s : State) (r : StepRecord) (usage : PlannerUsage) (w : W)
      → (v : W) × (apply c.ports c.py (log_step r usage) s c.run_dir c.config w
          ≡ (returns (step_logged r), v))

has_pump-append : (xs ys : List Command) → has_pump (xs ++ ys) ≡ (has_pump xs || has_pump ys)
has_pump-append [] ys = refl
has_pump-append (x ∷ xs) ys = ground (arith, has_pump-append xs ys)

module _ {W : Type 0} (c : Setting W) (calm : Undisturbed c) where
  -- What a round gives: the state stays active, and a command that pumps brings in another.
  abbrev Round : State → ℕ → Command → W → Type 0
  Round s n cmd w =
      (t : Transition) × (m : ℕ) × (v : W) × (step c s n cmd w ≡ (returns (t, m), v))
      × Spawns s t (is_pump cmd)

  after_event :
      (s : State) (n : ℕ) (cmd : Command) (w : W) (e : Event) (v : W)
      → apply c.ports c.py cmd s c.run_dir c.config w ≡ (returns e, v)
      → Decides c.py c.config c.effects s n e (is_pump cmd)
      → Round s n cmd w
  unfolding step
  after_event s n cmd w e v applied (t, m, decided, spawns) =
      (t, m, v, rw (applied, decided), spawns)

  round : (s : State) (n : ℕ) (cmd : Command) (w : W) → is_calm cmd ≡ true → Round s n cmd w
  round s n observe w h =
      let (text, buf, v, e) = calm.observes s w in
      after_event s n observe w _ v e (observation-Spawns c.py c.config c.effects s n text buf)
  round s n (send_keys k x) w h =
      let (seen, v, e) = calm.sends s k x w in
      after_event s n (send_keys k x) w _ v e (ack-Spawns c.py c.config c.effects s n seen)
  round s n (query_planner p f r k) w h =
      let (parsed, usage, v, e, on) = calm.answers s p f r k w in
      after_event s n (query_planner p f r k) w _ v e
        (response-Spawns c.py c.config c.effects s n parsed usage on)
  round s n (log_step r u) w h =
      let (v, e) = calm.logs s r u w in
      after_event s n (log_step r u) w _ v e (log-Spawns c.py c.config c.effects s n r)
  round s n _ w h = absurd (ground arith)

  -- If no port fails and the planner answers every query with commands and no completion, then
  -- the loop of _drive, in an active state and with a queue of observe, send_keys, query and log
  -- commands in which one is not a log, runs out of every fuel.
  pub drive_loop-none :
      (fuel : ℕ) (s : State) (n : ℕ) (pending : List Command) (w : W)
      → is_active s.status ≡ true
      → IsCalm pending
      → has_pump pending ≡ true
      → drive_loop c fuel s n pending w ≡ none
  unfolding drive_loop
  drive_loop-none zero s n [] w on all pump = absurd (ground arith)
  drive_loop-none (suc fuel) s n [] w on all pump = absurd (ground arith)
  drive_loop-none zero s n (cmd ∷ pending) w on all pump = refl
  drive_loop-none (suc fuel) s n (cmd ∷ pending) w on all pump =
      let (t, m, v, stepped, spawns) = round s n cmd w all.0 in
      rw (stepped, on)
        (drive_loop-none fuel t.state m (pending ++ t.commands) (c.ports.hold t.state v)
          (rw spawns.status on) (All-append _ pending t.commands all.1 spawns.calm)
          (ground (arith, has_pump-append pending t.commands, spawns.pump)))
