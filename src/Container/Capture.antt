-- ===== src/Container/Capture.antt =====
-- What a capture is reported as, against the buffer of the one before.
use termiclaw.Prelude.{
  ℕ, ◌<◌, Text, codes, strip, starts_with, starts_with-append, nonempty, tail_slice, [], ◌∷◌, ◌++◌,
  true, false, ◌≡◌, ◌≢◌, refl, arith, length, drop, lt→ltb,
}
use termiclaw.Errors.{returns}
use termiclaw.Python.{Builtins}
use termiclaw.Model.{Config}
use termiclaw.State.{State}
use termiclaw.Event.{observation_captured, Transition}
use termiclaw.Action.{Action}
use termiclaw.Decide.{DecideEffects, decide}
use termiclaw.Container.{get_incremental_output}

drop-length-append : (p r : Text) → drop (length p) (p ++ r) ≡ r
drop-length-append [] r = refl
drop-length-append (c ∷ p) r = drop-length-append p r

module _ {W : Type 0} (full visible : Action W Text) (w v : W) where
  -- If the full capture is the previous buffer, not empty, followed by text that is not only
  -- whitespace, the report is that text under its heading, and the capture is the next buffer.
  pub appended_output :
      (previous new : Text)
      → nonempty previous ≡ true
      → nonempty (strip new) ≡ true
      → full w ≡ (returns (previous ++ new), v)
      → get_incremental_output full visible previous w
        ≡ (returns (codes "New Terminal Output:\n" ++ new, previous ++ new), v)
  unfolding get_incremental_output
  appended_output previous new some_prev some_new captured = rw (
    captured,
    some_prev,
    starts_with-append previous new,
    drop-length-append previous new,
    some_new,
  )

  -- A capture that does not begin with the buffer is a reset: the visible screen is reported.
  pub reset_output :
      (previous current screen : Text) (x : W)
      → nonempty previous ≡ true
      → starts_with current previous ≡ false
      → full w ≡ (returns current, v)
      → visible v ≡ (returns screen, x)
      → get_incremental_output full visible previous w
        ≡ (returns (codes "[TERMINAL RESET]\n" ++ screen, current), x)
  unfolding get_incremental_output
  reset_output previous current screen x some_prev other captured shown =
      rw (captured, some_prev, other, shown)

-- The buffer that an observation leaves for the next one.
buffer_kept :
    (py : Builtins) (config : Config) (effects : DecideEffects) (s : State) (text buf : Text)
    (n : ℕ) (t : Transition) (m : ℕ)
    → decide py s (observation_captured text buf) config effects n ≡ returns (t, m)
    → config.capture_tail_bytes < length buf
    → t.state.previous_buffer ≡ tail_slice config.capture_tail_bytes buf
unfolding decide
buffer_kept py config effects s text buf n t m h long =
    ground (arith, lt→ltb config.capture_tail_bytes (length buf) long)

other_start : (c d : ℕ) (h rest : Text) → c ≢ d → starts_with (c ∷ h) (d ∷ rest) ≡ false
unfolding starts_with
other_start c d h rest ne = ground arith

module _ (py : Builtins) (config : Config) (effects : DecideEffects) (s : State) (n : ℕ)
    (t : Transition) (m : ℕ) {W : Type 0} (full visible : Action W Text) (w v x : W) where
  -- After decide has returned on an observation whose buffer is longer than the tail kept, and
  -- the tail begins with another character than the buffer: if the next full capture is that
  -- buffer with any text appended, get_incremental_output reports the visible screen as a
  -- terminal reset.
  pub grown_history_resets :
      (text screen new h rest : Text) (c d : ℕ)
      → decide py s (observation_captured text (c ∷ h)) config effects n ≡ returns (t, m)
      → config.capture_tail_bytes < length (c ∷ h)
      → tail_slice config.capture_tail_bytes (c ∷ h) ≡ d ∷ rest
      → c ≢ d
      → full w ≡ (returns ((c ∷ h) ++ new), v)
      → visible v ≡ (returns screen, x)
      → get_incremental_output full visible t.state.previous_buffer w
        ≡ (returns (codes "[TERMINAL RESET]\n" ++ screen, (c ∷ h) ++ new), x)
  grown_history_resets text screen new h rest c d decided long kept ne captured shown =
      let buffer = buffer_kept py config effects s text (c ∷ h) n t m decided long in
      rw (buffer, kept)
        (reset_output full visible w v (d ∷ rest) ((c ∷ h) ++ new) screen x refl
          (other_start c d (h ++ new) rest ne) captured shown)
