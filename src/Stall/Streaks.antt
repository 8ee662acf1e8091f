-- ===== src/Stall/Streaks.antt =====
-- What the streaks of stall.py count over a history of turns.
use termiclaw.Prelude.{
  ℕ, zero, suc, ◌+◌, ◌≤◌, Text, List, [], ◌∷◌, map, Bool, true, false, ◌≡◌, refl, ◌↔◌, ◌⊎◌, inl,
  inr, arith, leb, text_eq, nonempty, if◌then◌else◌, Bool-cases, ◌&&◌, ◌||◌,
}
use termiclaw.Model.{Config, ParsedCommand}
use termiclaw.State.{State, StallState, with_stall, no_stall}
use termiclaw.Stall.{
  Matching, StallSignal, quiet, nudge_repeat, nudge_no_progress, force_interrupt, detect_stall,
  observation_hash, commands_hash,
}

-- One turn: the observation, and the commands sent.
abbrev pub Turn : Type 0
Turn = Text × List ParsedCommand

-- `detect_stall` over a history, the latest turn first, the counters kept in the state.
unfoldable pub watch : Matching → Config → State → List Turn → StallState × StallSignal
watch re config s [] = (s.stall, quiet)
watch re config s (turn ∷ earlier) =
    detect_stall re (with_stall s (watch re config s earlier).0) turn.0 turn.1 config

-- How many hashes just before the latest equal it, the latest first and each equal to the next.
abbrev pub repeats : List Text → ℕ
repeats [] = 0
repeats (h ∷ []) = 0
repeats (h ∷ k ∷ hs) = let rest = repeats (k ∷ hs) in if text_eq h k then rest + 1 else 0

-- The latest `k + 1` hashes are there and equal.
abbrev pub AllSame : ℕ → List Text → Type 0
AllSame k [] = ⊥
AllSame zero (h ∷ hs) = Unit {0}
AllSame (suc k) (h ∷ []) = ⊥
AllSame (suc k) (h ∷ j ∷ hs) = (text_eq h j ≡ true) × AllSame k (j ∷ hs)

repeats_iff : (k : ℕ) (h : Text) (hs : List Text) → (k ≤ repeats (h ∷ hs)) ↔ AllSame k (h ∷ hs)
repeats_iff zero h hs = (λ x. tt, λ x. omega arith)
repeats_iff (suc k) h [] = (λ x. omega arith, λ x. absurd x)
repeats_iff (suc k) h (j ∷ hs) = elim (Bool-cases (text_eq h j)) [
  | inl same ↦
      let (to, from) = repeats_iff k j hs in
      rw same ((λ x. (refl, to (omega arith))), (λ x. omega (arith, from x.1)))
  | inr other ↦ rw other ((λ x. absurd (omega arith)), (λ x. absurd (ground arith)))
]

abbrev latest : List Text → Text
latest [] = []
latest (h ∷ hs) = h

abbrev pub observed : Matching → List Turn → List Text
observed re turns = map (λ t. observation_hash re t.0) turns

abbrev pub sent : Matching → List Turn → List Text
sent re turns = map (λ t. commands_hash re t.1) turns

-- The counters after a history.
pub record Watched (re : Matching) (turns : List Turn) (stall : StallState) : Type 0 where
  pub same_seen : stall.identical_obs_streak ≡ repeats (observed re turns)
  pub same_sent : stall.repeat_command_streak ≡ repeats (sent re turns)
  pub last_seen : stall.last_observation_hash ≡ latest (observed re turns)
  pub last_sent : stall.last_keystrokes_hash ≡ latest (sent re turns)

no_streak : (x : Bool) (n : ℕ) → (if x && false then n else 0) ≡ 0
no_streak true n = refl
no_streak false n = refl

streak_on : (x : Bool) (n : ℕ) → (if x && true then n else 0) ≡ (if x then n else 0)
streak_on true n = refl
streak_on false n = refl

ended : (t : Text) (n : ℕ) → nonempty t ≡ true → (if text_eq t [] && true then n else 0) ≡ 0
ended [] n h = absurd (ground arith)
ended (c ∷ t) n h = refl

signal_iff :
    (f n c o : ℕ)
    → ((if leb f c || leb f o
          then force_interrupt
          else if leb n c
          then nudge_repeat
          else if leb n o
          then nudge_no_progress
          else quiet)
        ≡ force_interrupt)
      ↔ ((f ≤ o) ⊎ (f ≤ c))
signal_iff f n c o = (λ h. ground arith, λ h. ground arith)

-- The signal, from the counters that come with it.
detect_stall-forces :
    (re : Matching) (s : State) (turn : Turn) (config : Config)
    → let (stall, signal) = detect_stall re s turn.0 turn.1 config in
      (signal ≡ force_interrupt) ↔ (
        (config.stall_force_interrupt_after ≤ stall.identical_obs_streak)
        ⊎ (config.stall_force_interrupt_after ≤ stall.repeat_command_streak))
unfolding detect_stall
detect_stall-forces re s turn config =
    signal_iff config.stall_force_interrupt_after config.stall_nudge_after _ _

module _ (re : Matching) (hashes : (t : Text) → nonempty (re.hash t) ≡ true) (config : Config) where
  detect_stall-Watched :
      (s : State) (turn : Turn) (earlier : List Turn)
      → Watched re earlier s.stall
      → Watched re (turn ∷ earlier) (detect_stall re s turn.0 turn.1 config).0
  unfolding detect_stall
  detect_stall-Watched s turn [] h = record {
    same_seen = rw h.last_seen (no_streak (text_eq (observation_hash re turn.0) []) _);
    same_sent = rw (h.last_sent, hashes _) (ended (commands_hash re turn.1) _ (hashes _));
    last_seen = refl;
    last_sent = refl;
  }
  detect_stall-Watched s turn (before ∷ earlier) h = record {
    same_seen =
        rw (h.last_seen, h.same_seen, hashes _)
          (streak_on (text_eq (observation_hash re turn.0) (observation_hash re before.0)) _);
    same_sent =
        rw (h.last_sent, h.same_sent, hashes _)
          (streak_on (text_eq (commands_hash re turn.1) (commands_hash re before.1)) _);
    last_seen = refl;
    last_sent = refl;
  }

  watch-Watched :
      (s : State) (turns : List Turn)
      → s.stall ≡ no_stall
      → Watched re turns (watch re config s turns).0
  unfolding watch with_stall
  watch-Watched s [] h =
      rw h (record { same_seen = refl; same_sent = refl; last_seen = refl; last_sent = refl })
  watch-Watched s (turn ∷ earlier) h =
      detect_stall-Watched (with_stall s (watch re config s earlier).0) turn earlier
        (watch-Watched s earlier h)

  -- For a hash that is never empty, a state with fresh counters and a history of one turn or more
  -- through detect_stall, the counters kept in the state: the last signal is a forced interrupt
  -- exactly if there are k + 1 turns or more and the hashes of the last k + 1 observations are
  -- equal, or those of the last k + 1 command lists are, where k is stall_force_interrupt_after.
  pub watch-forces :
      (s : State) (turn : Turn) (earlier : List Turn)
      → s.stall ≡ no_stall
      → ((watch re config s (turn ∷ earlier)).1 ≡ force_interrupt) ↔ (
          AllSame config.stall_force_interrupt_after (observed re (turn ∷ earlier))
          ⊎ AllSame config.stall_force_interrupt_after (sent re (turn ∷ earlier)))
  unfolding watch
  watch-forces s turn earlier h =
      let counted = watch-Watched s (turn ∷ earlier) h in
      let (to_seen, from_seen) =
        repeats_iff config.stall_force_interrupt_after (observation_hash re turn.0)
          (observed re earlier) in
      let (to_sent, from_sent) =
        repeats_iff config.stall_force_interrupt_after (commands_hash re turn.1)
          (sent re earlier) in
      let (to, from) =
        detect_stall-forces re (with_stall s (watch re config s earlier).0) turn config in
      (
        λ e. elim (to e) [
          | inl a ↦ inl (to_seen (omega (arith, counted.same_seen)))
          | inr a ↦ inr (to_sent (omega (arith, counted.same_sent)))
        ],
        λ e. elim e [
          | inl a ↦ from (inl (omega (arith, counted.same_seen, from_seen a)))
          | inr a ↦ from (inr (omega (arith, counted.same_sent, from_sent a)))
        ],
      )
