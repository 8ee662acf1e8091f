-- ===== src/Container/Process.antt =====
-- container.py: what it does through docker and tmux. A process, uuid4, the clock, sleep and the hash
-- of the Dockerfile are parameters.
pub mod Typed
pub mod Wait
use termiclaw.Prelude.{
  ℕ, zero, suc, ℤ, pos, negsuc, eq_ℤ, Text, codes, decimal, decimal_ℤ, strip, rstrip, text_eq,
  starts_with, List, [], ◌∷◌, ◌++◌, Option, none, some, Bool, true, false, ◌&&◌, ◌||◌, leb,
  if◌then◌else◌,
}
use termiclaw.Float.{Float, ltb_float, add_float}
use termiclaw.Errors.{
  Raises, returns, raises, Exception, container, called_process_error, file_not_found, value_error,
  unicode_error, os_error, Result, ok, err, ContainerError, image_build_error, provision_error,
  session_dead,
}
use termiclaw.Action.{Action, pure, raise, ◌>>=◌, ◌>>◌}
use termiclaw.Container.{split_keys}

-- Why `subprocess.run` raised: there is no such program, an argument has a null byte, the output is
-- not UTF-8, or the system refuses the call, as it does too long an argument list.
pub data RunFailure : Type 0 where
  missing_program null_byte undecodable refused : RunFailure

-- What it raised: FileNotFoundError, ValueError, UnicodeDecodeError, or another OSError.
unfoldable pub run_exception : RunFailure → Exception
run_exception missing_program = file_not_found
run_exception null_byte = value_error
run_exception undecodable = unicode_error
run_exception refused = os_error

-- How `subprocess.run` ended: a process, or an exception.
pub data Ran : Type 0 where
  ran : (returncode : ℤ) (stdout : Text) → Ran
  not_run : RunFailure → Ran

-- What is outside. `failure` is the text of `e.stderr or e`.
pub record Host (W : Type 0) : Type 0 where
  pub spawn : List Text → W → Ran × W
  pub failure : List Text → Ran → Text
  pub uuid : W → Text × W
  pub monotonic : W → Float × W
  pub sleep : Float → W → W
  pub image_tag : Text
  pub dockerfile : Text
  pub dockerfile_dir : Text

-- The `_dx` prefix.
abbrev pub dx : Text → List Text
dx container_id = codes "docker" ∷ codes "exec" ∷ container_id ∷ []

abbrev pub any_text : Text → List Text → Bool
any_text t [] = false
any_text t (s ∷ ss) = text_eq t s || any_text t ss

abbrev pub is_lower : ℕ → Bool
is_lower c = leb b'a' c && leb c b'z'

abbrev pub is_digit : ℕ → Bool
is_digit c = leb b'0' c && leb c b'9'

abbrev pub letter_after : Text → Text → Bool
letter_after prefix (a ∷ b ∷ c ∷ []) = text_eq prefix (a ∷ b ∷ []) && is_lower c
letter_after prefix t = false

abbrev pub function_key : Text → Bool
function_key (f ∷ c ∷ []) = text_eq (f ∷ []) (codes "F") && is_digit c
function_key (f ∷ c ∷ d ∷ []) = text_eq (f ∷ []) (codes "F") && is_digit c && is_digit d
function_key t = false

-- `SPECIAL_KEY_RE.match` of a stripped text, which ends in no newline.
unfoldable pub special_key : Text → Bool
special_key t =
    letter_after (codes "C-") t
    || letter_after (codes "M-") t
    || function_key t
    || any_text t (
        codes "Enter"
        ∷ codes "Escape"
        ∷ codes "Tab"
        ∷ codes "BSpace"
        ∷ codes "Up"
        ∷ codes "Down"
        ∷ codes "Left"
        ∷ codes "Right"
        ∷ codes "Home"
        ∷ codes "End"
        ∷ codes "PageUp"
        ∷ codes "PageDown"
        ∷ codes "Space"
        ∷ codes "DC"
        ∷ codes "IC"
        ∷ [])

-- `needle in text`
unfoldable pub contains : Text → Text → Bool
contains needle [] = starts_with [] needle
contains needle (c ∷ t) = starts_with (c ∷ t) needle || contains needle t

-- `marker` in the line that is typed.
abbrev pub marked : Text → Text → Text
marked keys marker = rstrip keys ++ (codes "; echo '" ++ (marker ++ codes "'"))

-- `_SEND_KEYS_MAX_COMMAND_LENGTH`
abbrev pub max_length : ℕ
max_length = 16_000

module _ {W : Type 0} (h : Host W) where
  -- `subprocess.run(..., check=False)`
  abbrev pub run_free : List Text → Action W ℤ
  run_free args w = elim (h.spawn args w).0 [
    | not_run failure ↦ (raises (run_exception failure), (h.spawn args w).1)
    | ran code out ↦ (returns code, (h.spawn args w).1)
  ]

  -- `subprocess.run(..., check=True)` under `except CalledProcessError`, which raises in its place.
  abbrev pub checked_as : (Text → Exception) → List Text → Ran → Raises Text
  checked_as failed args (not_run failure) = raises (run_exception failure)
  checked_as failed args (ran code out) =
      if eq_ℤ code (pos 0) then returns out else raises (failed (h.failure args (ran code out)))

  abbrev pub run_as : (Text → Exception) → List Text → Action W Text
  run_as failed args w = (checked_as failed args (h.spawn args w).0, (h.spawn args w).1)

  -- `ensure_image`
  abbrev pub built : Ran → Raises (Result Text ContainerError)
  built (not_run failure) = raises (run_exception failure)
  built (ran code out) =
      if eq_ℤ code (pos 0)
      then returns (ok h.image_tag)
      else returns (err (image_build_error (codes "docker build failed: exit " ++ decimal_ℤ code)))

  abbrev pub build_args : List Text
  build_args =
      codes "docker"
      ∷ codes "build"
      ∷ codes "-t"
      ∷ h.image_tag
      ∷ codes "-f"
      ∷ h.dockerfile
      ∷ h.dockerfile_dir
      ∷ []

  abbrev pub inspected : Ran × W → Raises (Result Text ContainerError) × W
  inspected (not_run missing_program, w) =
      (returns (err (image_build_error (codes "docker binary not found"))), w)
  inspected (not_run failure, w) = (raises (run_exception failure), w)
  inspected (ran code out, w) =
      if eq_ℤ code (pos 0)
      then (returns (ok h.image_tag), w)
      else (built (h.spawn build_args w).0, (h.spawn build_args w).1)

  unfoldable pub ensure_image : Action W (Result Text ContainerError)
  ensure_image w =
      inspected (h.spawn (codes "docker" ∷ codes "image" ∷ codes "inspect" ∷ h.image_tag ∷ []) w)

  -- `provision_container`
  abbrev pub started : List Text → Ran → Raises (Result Text ContainerError)
  started args (not_run missing_program) =
      returns (err (provision_error (codes "docker binary not found")))
  started args (not_run failure) = raises (run_exception failure)
  started args (ran code out) =
      if eq_ℤ code (pos 0)
      then returns (ok (strip out))
      else returns
          (err (provision_error (codes "docker run failed: " ++ h.failure args (ran code out))))

  abbrev pub run_args : Text → Text → Text → List Text
  run_args name image network =
      codes "docker"
      ∷ codes "run"
      ∷ codes "-d"
      ∷ codes "--rm"
      ∷ codes "--name"
      ∷ name
      ∷ codes "--network"
      ∷ network
      ∷ image
      ∷ []

  unfoldable pub provision_container : Text → Text → Action W (Result Text ContainerError)
  provision_container image network w =
      let name = codes "termiclaw-" ++ (h.uuid w).0 in
      let out = h.spawn (run_args name image network) (h.uuid w).1 in
      (started (run_args name image network) out.0, out.1)

  unfoldable pub destroy_container : Text → Action W (Unit {0})
  destroy_container container_id =
      run_free (codes "docker" ∷ codes "stop" ∷ container_id ∷ []) >> pure tt

  abbrev pub bare : Text → Exception
  bare message = called_process_error

  unfoldable pub provision_session : Text → Text → ℕ → ℕ → ℕ → Action W (Unit {0})
  provision_session container_id session_name width height history_limit =
      run_as bare (
        dx container_id
        ++ (codes "tmux"
            ∷ codes "new-session"
            ∷ codes "-d"
            ∷ codes "-s"
            ∷ session_name
            ∷ codes "-x"
            ∷ decimal width
            ∷ codes "-y"
            ∷ decimal height
            ∷ codes "bash"
            ∷ codes "--login"
            ∷ []))
      >> run_as bare (
          dx container_id
          ++ (codes "tmux"
              ∷ codes "set-option"
              ∷ codes "-t"
              ∷ session_name
              ∷ codes "history-limit"
              ∷ decimal history_limit
              ∷ []))
      >> pure tt

  unfoldable pub is_session_alive : Text → Text → Action W Bool
  is_session_alive container_id session_name =
      run_free
        (dx container_id ++ (codes "tmux" ∷ codes "has-session" ∷ codes "-t" ∷ session_name ∷ []))
      >>= λ code. pure (eq_ℤ code (pos 0))

  abbrev pub dead : Text → Text → Exception
  dead what message = container (session_dead (what ++ message))

  abbrev pub key_args : Text → Text → Text → List Text
  key_args container_id session_name keys =
      dx container_id ++ (codes "tmux" ∷ codes "send-keys" ∷ codes "-t" ∷ session_name ∷ keys ∷ [])

  -- The loop over the chunks.
  abbrev pub send_chunks : Text → Text → List Text → Action W (Unit {0})
  send_chunks container_id session_name [] = pure tt
  send_chunks container_id session_name (chunk ∷ chunks) =
      run_as (dead (codes "send_keys failed: ")) (key_args container_id session_name chunk)
      >> send_chunks container_id session_name chunks

  abbrev pub send_split : Text → Text → Raises (List Text) → Action W (Unit {0})
  send_split container_id session_name (raises x) = raise x
  send_split container_id session_name (returns chunks) =
      send_chunks container_id session_name chunks

  unfoldable pub send_keys : Text → Text → Text → ℕ → Action W (Unit {0})
  send_keys container_id session_name keys max_command_length =
      if special_key (strip keys)
      then send_chunks container_id session_name (strip keys ∷ [])
      else send_split container_id session_name (split_keys keys max_command_length)

  unfoldable pub capture_visible : Text → Text → Action W Text
  capture_visible container_id session_name = run_as (dead (codes "capture_visible failed: ")) (
      dx container_id
      ++ (codes "tmux" ∷ codes "capture-pane" ∷ codes "-p" ∷ codes "-t" ∷ session_name ∷ []))

  unfoldable pub capture_full_history : Text → Text → Action W Text
  capture_full_history container_id session_name =
      run_as (dead (codes "capture_full_history failed: ")) (
        dx container_id
        ++ (codes "tmux"
            ∷ codes "capture-pane"
            ∷ codes "-p"
            ∷ codes "-t"
            ∷ session_name
            ∷ codes "-S"
            ∷ codes "-"
            ∷ []))

  -- The loop that polls, on fuel; `none` is fuel that ran out.
  abbrev pub poll : ℕ → Text → Text → Text → Float → Float → W → Option (Raises Bool × W)
  poll zero container_id session_name marker deadline poll_interval w = none
  poll (suc fuel) container_id session_name marker deadline poll_interval w =
      let timed = h.monotonic w in
      let screen = capture_visible container_id session_name timed.1 in
      let again =
        poll fuel container_id session_name marker deadline poll_interval
          (h.sleep poll_interval screen.1) in
      if ltb_float timed.0 deadline
      then (elim screen.0 [
        | raises x ↦ some (raises x, screen.1)
        | returns text ↦ (if contains marker text then some (returns true, screen.1) else again)
      ])
      else some (returns false, timed.1)

  abbrev pub wait_for :
      ℕ → Text → Text → Text → Float → Float → Raises (Unit {0}) × W → Option (Raises Bool × W)
  wait_for fuel container_id session_name marker max_seconds poll_interval (raises x, w) =
      some (raises x, w)
  wait_for fuel container_id session_name marker max_seconds poll_interval (returns _, w) =
      let timed = h.monotonic w in
      poll fuel container_id session_name marker (add_float timed.0 max_seconds) poll_interval
        timed.1

  unfoldable pub send_and_wait_idle :
      ℕ → Text → Text → Text → Float → Float → ℕ → W → Option (Raises Bool × W)
  send_and_wait_idle fuel container_id session_name keys max_seconds poll_interval
        max_command_length w =
      if special_key (strip keys)
      then some ((send_keys container_id session_name keys max_command_length >> pure true) w)
      else (let marker = codes "TERMICLAW_DONE_" ++ (h.uuid w).0 in
          wait_for fuel container_id session_name marker max_seconds poll_interval (
            (send_keys container_id session_name (marked keys marker) max_command_length
                >> send_keys container_id session_name (codes "Enter") max_length)
              (h.uuid w).1))
