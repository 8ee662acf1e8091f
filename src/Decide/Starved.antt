-- ===== src/Decide/Starved.antt =====
-- decide.py: the refresh of artifacts, which goes before the observation of a turn, in states whose
-- tokens have reached the dump threshold.
use termiclaw.Prelude.{
  ℕ, ◌+◌, ◌%◌, Text, codes, [], ◌∷◌, Bool, true, ◌≡◌, ◌≢◌, refl, arith, leb_ℤ, ◌==◌, inl, inr,
  Bool-cases, ◌⊎◌,
}
use termiclaw.Errors.{returns}
use termiclaw.Python.{Builtins}
use termiclaw.Model.{Config, StepRecord}
use termiclaw.State.{State, with_step}
use termiclaw.Event.{loop_tick, artifacts_refreshed, step_logged, refresh_artifacts, log_step}
use termiclaw.Core.{artifact_refresh_trigger}
use termiclaw.Decide.{DecideEffects, decide, to, zero_usage, after_trigger, on_loop_tick}

pub record Starved (s : State) (config : Config) : Type 0 where
  pub interval : config.state_dump_interval_turns ≢ 0
  pub begun : s.current_step ≢ 0
  pub full : leb_ℤ config.state_dump_token_threshold s.total_prompt_tokens ≡ true

due :
    (s : State) (config : Config)
    → Starved s config
    → (artifact_refresh_trigger s config ≡ returns (codes "interval"))
      ⊎ (artifact_refresh_trigger s config ≡ returns (codes "token_threshold"))
unfolding artifact_refresh_trigger
due s config h = elim (Bool-cases (s.current_step % config.state_dump_interval_turns == 0)) [
  | inl e ↦ inl (ground (arith, e))
  | inr e ↦ inr (ground (arith, e))
]

module _ (py : Builtins) (config : Config) (effects : DecideEffects) where
  -- The tick of a starved state is a refresh alone.
  pub Starved-tick :
      (s : State) (ready : Bool) (n : ℕ)
      → Starved s config
      → (trigger : Text) × (decide py s (loop_tick ready true) config effects n
          ≡ to s (refresh_artifacts trigger ∷ []) n)
  unfolding decide on_loop_tick after_trigger
  Starved-tick s ready n h = elim (due s config h) [
    | inl e ↦ (codes "interval", rw e)
    | inr e ↦ (codes "token_threshold", rw e)
  ]

  -- The marker step of a refresh.
  pub refreshed-logs :
      (s : State) (trigger : Text) (n : ℕ)
      → (r : StepRecord) × (decide py s (artifacts_refreshed trigger) config effects n
          ≡ to s (log_step r zero_usage ∷ []) (n + 1))
  unfolding decide
  refreshed-logs s trigger n = (_, refl)

  pub logged-steps :
      (s : State) (r : StepRecord) (n : ℕ)
      → decide py s (step_logged r) config effects n ≡ to (with_step s r 20) [] n
  unfolding decide
  logged-steps s r n = refl

-- A logged step leaves a starved state starved.
pub Starved-step :
    (s : State) (config : Config) (r : StepRecord) (k : ℕ)
    → Starved s config
    → Starved (with_step s r k) config
unfolding with_step
Starved-step s config r k h = record { interval = h.interval; begun = omega arith; full = h.full }
