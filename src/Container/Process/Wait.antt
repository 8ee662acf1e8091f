-- ===== src/Container/Process/Wait.antt =====
-- container.py: the loop of send_and_wait_idle that polls the screen.
use termiclaw.Prelude.{
  ℕ, zero, suc, ◌<◌, Text, codes, strip, rstrip, starts_with, starts_with-append, [], ◌∷◌, ◌++◌,
  append_assoc, some, Bool, true, false, ◌≡◌, refl, sym, ap, ◌∙◌, arith, inl, inr, Bool-cases,
}
use termiclaw.Float.{Float, ltb_float, add_float}
use termiclaw.Errors.{Raises, returns, raises, Raises-cases}
use termiclaw.Action.{◌>>◌}
use termiclaw.Container.Process.{
  Host, contains, marked, capture_visible, poll, send_keys, special_key, send_and_wait_idle,
  wait_for, max_length,
}

contains_at : (needle before after : Text) → contains needle (before ++ (needle ++ after)) ≡ true
unfolding contains
contains_at needle [] after = at_start (needle ++ after) (starts_with-append needle after)
  where
    at_start : (t : Text) → starts_with t needle ≡ true → contains needle t ≡ true
    at_start [] e = e
    at_start (c ∷ t) e = rw e refl
contains_at needle (c ∷ before) after = ground (arith, contains_at needle before after)

-- The typed line has the marker in it.
contains-marked :
    (keys marker before after : Text)
    → contains marker (before ++ (marked keys marker ++ after)) ≡ true
contains-marked keys marker before after =
    let echo : Text = codes "; echo '" in
    let rest : Text = codes "'" ++ after in
    let flat : before ++ (marked keys marker ++ after)
        ≡ (before ++ (rstrip keys ++ echo)) ++ (marker ++ rest) =
      ap (λ t. before ++ t)
        (append_assoc (rstrip keys) (echo ++ (marker ++ codes "'")) after
          ∙ ap (λ t. rstrip keys ++ (echo ++ t)) (append_assoc marker (codes "'") after)
          ∙ sym (append_assoc (rstrip keys) echo (marker ++ rest)))
      ∙ sym (append_assoc before (rstrip keys ++ echo) (marker ++ rest)) in
    ap (contains marker) flat ∙ contains_at marker (before ++ (rstrip keys ++ echo)) rest

module _ {W : Type 0} (h : Host W) (container_id session_name marker : Text)
    (deadline poll_interval : Float) where
  -- The world after one round that did not end the loop.
  abbrev pub rounded : W → W
  rounded w =
      h.sleep poll_interval (capture_visible h container_id session_name (h.monotonic w).1).1

  pub poll-echo :
      (fuel : ℕ) (w : W) (keys before after : Text)
      → ltb_float (h.monotonic w).0 deadline ≡ true
      → (capture_visible h container_id session_name (h.monotonic w).1).0
        ≡ returns (before ++ (marked keys marker ++ after))
      → poll h (suc fuel) container_id session_name marker deadline poll_interval w
        ≡ some (returns true, (capture_visible h container_id session_name (h.monotonic w).1).1)
  poll-echo fuel w keys before after early screen =
      rw (early, screen, contains-marked keys marker before after) refl

  -- If a measure of the world gets less in each round of the polling loop that starts before the
  -- deadline, the loop ends with fuel for one round more than the measure.
  pub poll-ends :
      (left : W → ℕ)
      → ((w : W) → ltb_float (h.monotonic w).0 deadline ≡ true → left (rounded w) < left w)
      → (fuel : ℕ) (w : W) → left w < fuel
      → (out : Raises Bool × W) × (poll h fuel container_id session_name marker deadline
            poll_interval w
          ≡ some out)
  poll-ends left runs zero w enough = absurd (omega arith)
  poll-ends left runs (suc fuel) w enough =
      elim (Bool-cases (ltb_float (h.monotonic w).0 deadline)) [
        | inr late ↦ ((returns false, (h.monotonic w).1), rw late refl)
        | inl early ↦
            let seen = capture_visible h container_id session_name (h.monotonic w).1 in
            elim (Raises-cases seen.0) [
              | inr (x, dead) ↦ ((raises x, seen.1), rw (early, dead) refl)
              | inl (text, screen) ↦ elim (Bool-cases (contains marker text)) [
                | inl found ↦ ((returns true, seen.1), rw (early, screen, found) refl)
                | inr missing ↦
                    let less = runs w early in
                    let (out, e) = poll-ends left runs fuel (rounded w) (omega arith) in
                    (out, rw (early, screen, missing) e)
              ]
            ]
      ]

-- The marker of a call that starts in this world, and the world in which the loop starts.
abbrev pub marker_in : {W : Type 0} → Host W → W → Text
marker_in h w = codes "TERMICLAW_DONE_" ++ (h.uuid w).0

module _ {W : Type 0} (h : Host W) (container_id session_name keys : Text)
    (max_seconds poll_interval : Float) where
  abbrev pub deadline_in : W → Float
  deadline_in v = add_float (h.monotonic v).0 max_seconds

  -- For keys that are no special key, if both sends return, the deadline is not reached at the
  -- first round, and the first screen shows the command line as it was typed: send_and_wait_idle
  -- returns True after that one capture, whatever else is on the screen.
  pub send_and_wait_idle-echo :
      (fuel limit : ℕ) (w v : W) (before after : Text)
      → special_key (strip keys) ≡ false
      → (send_keys h container_id session_name (marked keys (marker_in h w)) limit
            >> send_keys h container_id session_name (codes "Enter") max_length)
          (h.uuid w).1
        ≡ (returns tt, v)
      → ltb_float (h.monotonic (h.monotonic v).1).0 (deadline_in v) ≡ true
      → (capture_visible h container_id session_name (h.monotonic (h.monotonic v).1).1).0
        ≡ returns (before ++ (marked keys (marker_in h w) ++ after))
      → send_and_wait_idle h
          (suc fuel)
          container_id
          session_name
          keys
          max_seconds
          poll_interval
          limit
          w
        ≡ some (
          returns true,
          (capture_visible h container_id session_name (h.monotonic (h.monotonic v).1).1).1,
        )
  unfolding send_and_wait_idle
  send_and_wait_idle-echo fuel limit w v before after plain sent early screen = rw plain (
      ap (wait_for h (suc fuel) container_id session_name (marker_in h w) max_seconds poll_interval)
        sent
      ∙ poll-echo h container_id session_name (marker_in h w) (deadline_in v) poll_interval fuel
          (h.monotonic v).1 keys before after early screen)
