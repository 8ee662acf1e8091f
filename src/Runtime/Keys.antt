-- ===== src/Runtime/Keys.antt =====
-- shell.py over runtime.py: what a command that sends keys can raise.
use termiclaw.Prelude.{
  ℕ, zero, suc, ◌⊎◌, inl, inr, Text, codes, strip, List, [], ◌∷◌, ◌++◌, Option, none, some, Bool,
  true, ◌≡◌, refl, sym, subst, Bool-cases,
}
use termiclaw.Float.{Float, ltb_float, add_float}
use termiclaw.Errors.{Raises, returns, raises, Exception, Raises-cases, keyboard_interrupt}
use termiclaw.Model.{Config}
use termiclaw.State.{State}
use termiclaw.Event.{Event, Command, force_interrupt}
use termiclaw.Action.{◌>>◌, pure}
use termiclaw.Ports.{Ports}
use termiclaw.Shell.{apply, sent, interrupted}
use termiclaw.Container.Process.{
  Host, dx, marked, max_length, special_key, contains, capture_visible, poll, wait_for, send_keys,
  send_and_wait_idle,
}
use termiclaw.Container.Process.Wait.{marker_in}
use termiclaw.Container.Process.Typed.{
  Expected, Uncaught, checked_as-Expected, continue-Expected, send_keys-Expected,
}
use termiclaw.Runtime.{Outside, World, settled, polled, typed, send_and_wait}
use termiclaw.Runtime.Wired.{build_default_ports}

-- What a wait came to, if its fuel was enough.
abbrev ExpectedOut : {W : Type 0} → Option (Raises Bool × W) → Type 0
ExpectedOut none = Unit {0}
ExpectedOut (some (r, v)) = Expected r

module _ {W : Type 0} (h : Host W) (container_id session_name : Text) where
  capture_visible-Expected : (w : W) → Expected (capture_visible h container_id session_name w).0
  unfolding capture_visible
  capture_visible-Expected w =
      let args : List Text =
        dx container_id
        ++ (codes "tmux" ∷ codes "capture-pane" ∷ codes "-p" ∷ codes "-t" ∷ session_name ∷ []) in
      checked_as-Expected h (codes "capture_visible failed: ") args (h.spawn args w).0

  poll-Expected :
      (fuel : ℕ) (marker : Text) (deadline poll_interval : Float) (w : W)
      → ExpectedOut (poll h fuel container_id session_name marker deadline poll_interval w)
  poll-Expected zero marker deadline poll_interval w = tt
  poll-Expected (suc fuel) marker deadline poll_interval w =
      elim (Bool-cases (ltb_float (h.monotonic w).0 deadline)) [
        | inr late ↦ rw late tt
        | inl early ↦
            let seen = capture_visible h container_id session_name (h.monotonic w).1 in
            elim (Raises-cases seen.0) [
              | inr (x, gone) ↦
                  rw (early, gone)
                    (subst Expected gone (capture_visible-Expected (h.monotonic w).1))
              | inl (text, screen) ↦ elim (Bool-cases (contains marker text)) [
                | inl found ↦ rw (early, screen, found) tt
                | inr missing ↦
                    rw (early, screen, missing)
                      (poll-Expected fuel marker deadline poll_interval
                        (h.sleep poll_interval seen.1))
              ]
            ]
      ]

  wait_for-Expected :
      (fuel : ℕ) (marker : Text) (max_seconds poll_interval : Float) (o : Raises (Unit {0}) × W)
      → Expected o.0
      → ExpectedOut (wait_for h fuel container_id session_name marker max_seconds poll_interval o)
  wait_for-Expected fuel marker max_seconds poll_interval (raises x, w) e = e
  wait_for-Expected fuel marker max_seconds poll_interval (returns _, w) e =
      let timed = h.monotonic w in
      poll-Expected fuel marker (add_float timed.0 max_seconds) poll_interval timed.1

  send_and_wait_idle-Expected :
      (fuel : ℕ) (keys : Text) (max_seconds poll_interval : Float) (limit : ℕ) (w : W)
      → ExpectedOut (
          send_and_wait_idle h fuel container_id session_name keys max_seconds poll_interval limit
            w)
  unfolding send_and_wait_idle
  send_and_wait_idle-Expected fuel keys max_seconds poll_interval limit w =
      elim (Bool-cases (special_key (strip keys))) [
        | inl special ↦ rw special (
            continue-Expected h (send_keys h container_id session_name keys limit w).0
              (send_keys h container_id session_name keys limit w).1 (pure true)
              (send_keys-Expected h container_id session_name keys limit w) (λ v. tt))
        | inr plain ↦
            let line : Text = marked keys (marker_in h w) in
            let typed = send_keys h container_id session_name line limit (h.uuid w).1 in
            rw plain (
              wait_for-Expected fuel (marker_in h w) max_seconds poll_interval
                ((send_keys h container_id session_name line limit
                    >> send_keys h container_id session_name (codes "Enter") max_length)
                  (h.uuid w).1)
                (continue-Expected h typed.0 typed.1
                  (send_keys h container_id session_name (codes "Enter") max_length)
                  (send_keys-Expected h container_id session_name line limit (h.uuid w).1)
                  (send_keys-Expected h container_id session_name (codes "Enter") max_length)))
      ]

-- An event, or one of the exceptions that a command with keys can raise.
abbrev pub Told : Raises Event → Type 0
Told (returns _) = Unit {0}
Told (raises x) = Uncaught x ⊎ (x ≡ keyboard_interrupt)

-- What a wait for keys, or a key, came to.
abbrev Allowed : {A : Type 0} → Raises A → Type 0
Allowed r = Expected r ⊎ (r ≡ raises keyboard_interrupt)

module _ {W : Type 0} (ports : Ports W) where
  sent-Uncaught : (x : Exception) → Uncaught x → Told (sent ports (raises x))
  unfolding sent
  sent-Uncaught x (inl undecodable) = rw undecodable (inl (inl refl))
  sent-Uncaught x (inr (inl missing)) = rw missing (inl (inr (inl refl)))
  sent-Uncaught x (inr (inr (inl null))) = rw null (inl (inr (inr (inl refl))))
  sent-Uncaught x (inr (inr (inr refused))) = rw refused (inl (inr (inr (inr refl))))

  sent-Told : (r : Raises Bool) → Allowed r → Told (sent ports r)
  unfolding sent
  sent-Told (returns seen) h = tt
  sent-Told (raises x) (inr stopped) = subst (λ r. Told (sent ports r)) (sym stopped) (inr refl)
  sent-Told (raises x) (inl (inl (m, gone))) = rw gone tt
  sent-Told (raises x) (inl (inr uncaught)) = sent-Uncaught x uncaught

  interrupted-Uncaught : (x : Exception) → Uncaught x → Told (interrupted ports (raises x))
  unfolding interrupted
  interrupted-Uncaught x (inl undecodable) = rw undecodable (inl (inl refl))
  interrupted-Uncaught x (inr (inl missing)) = rw missing (inl (inr (inl refl)))
  interrupted-Uncaught x (inr (inr (inl null))) = rw null (inl (inr (inr (inl refl))))
  interrupted-Uncaught x (inr (inr (inr refused))) = rw refused (inl (inr (inr (inr refl))))

  interrupted-Told : (r : Raises (Unit {0})) → Expected r → Told (interrupted ports r)
  unfolding interrupted
  interrupted-Told (returns _) h = tt
  interrupted-Told (raises x) (inl (m, gone)) = rw gone tt
  interrupted-Told (raises x) (inr uncaught) = interrupted-Uncaught x uncaught

module _ {W : Type 0} (o : Outside W) (config : Config) (s : State) (run_dir : Text) where
  send_and_wait-Allowed :
      (keys : Text) (max_seconds poll_interval : Float) (limit : ℕ) (w : W)
      → Allowed
          (send_and_wait o s.container_id s.tmux_session keys max_seconds poll_interval limit w).0
  unfolding send_and_wait
  send_and_wait-Allowed keys max_seconds poll_interval limit w =
      settled-Allowed
        (polled o o.patience s.container_id s.tmux_session poll_interval
          (typed o s.container_id s.tmux_session keys limit w))
        (send_and_wait_idle o.host o.patience s.container_id s.tmux_session keys max_seconds
          poll_interval limit w)
        (send_and_wait_idle-Expected o.host s.container_id s.tmux_session o.patience keys
          max_seconds poll_interval limit w)
    where
      settled-Allowed :
          (stopped : W) (out : Option (Raises Bool × W))
          → ExpectedOut out
          → Allowed (settled o stopped out).0
      settled-Allowed stopped none h = inr refl
      settled-Allowed stopped (some (r, v)) h = inl h

  abbrev default_ports : Ports (World W)
  default_ports = build_default_ports o config

  -- Over the default ports, whatever the processes, the clock and the user do: SendKeysCmd and
  -- ForceInterruptCmd give an event, or raise UnicodeError, FileNotFoundError, ValueError,
  -- OSError or KeyboardInterrupt.
  pub apply-Told :
      (keystrokes : Text) (max_seconds : Float) (reason : Text) (w : World W)
      → Told
          (apply default_ports o.py (Command.send_keys keystrokes max_seconds) s run_dir config w).0
        × Told (apply default_ports o.py (force_interrupt reason) s run_dir config w).0
  unfolding apply build_default_ports
  apply-Told keystrokes max_seconds reason w = (
    sent-Told default_ports
        (send_and_wait o s.container_id s.tmux_session keystrokes max_seconds
          config.blocking_poll_interval config.max_command_length w.outside).0
        (send_and_wait-Allowed keystrokes max_seconds config.blocking_poll_interval
          config.max_command_length w.outside),
    interrupted-Told default_ports
        (send_keys o.host s.container_id s.tmux_session (codes "C-c") config.max_command_length
          w.outside).0
        (send_keys-Expected o.host s.container_id s.tmux_session (codes "C-c")
          config.max_command_length w.outside),
  )
