-- ===== src/Container/Process/Typed.antt =====
-- container.py: what send_keys has tmux type, and what it raises.
use termiclaw.Prelude.{
  ℕ, pos, Text, codes, strip, List, [], ◌∷◌, ◌++◌, ◌≡◌, refl, ◌⊎◌, inl, inr, Bool-cases, eq_ℤ, leb,
}
use termiclaw.Errors.{
  Raises, returns, raises, Exception, container, session_dead, unicode_error, file_not_found,
  value_error, os_error,
}
use termiclaw.Action.{Action, continue}
use termiclaw.Container.{split_keys, has_surrogate, utf8_len}
use termiclaw.Container.Process.{
  Host, Ran, ran, not_run, RunFailure, missing_program, null_byte, undecodable, refused,
  run_exception, special_key, dead, checked_as, key_args, send_chunks, send_split, send_keys,
}

-- A host where every process succeeds, with the calls so far.
pub record Delivers {W : Type 0} (h : Host W) : Type 0 where
  pub calls : W → List (List Text)
  pub succeeds : (args : List Text) (w : W) → (out : Text) × ((h.spawn args w).0 ≡ ran (pos 0) out)
  pub called : (args : List Text) (w : W) → calls (h.spawn args w).1 ≡ calls w ++ args ∷ []

-- UnicodeError, FileNotFoundError, ValueError or OSError, which the callers do not catch.
abbrev pub Uncaught : Exception → Type 0
Uncaught x = (x ≡ unicode_error) ⊎ ((x ≡ file_not_found) ⊎ ((x ≡ value_error) ⊎ (x ≡ os_error)))

-- SessionDeadError, which the callers are told of by an event, or one that they do not catch.
abbrev pub Expected : {A : Type 0} → Raises A → Type 0
Expected (returns _) = Unit {0}
Expected (raises x) = ((m : Text) × (x ≡ container (session_dead m))) ⊎ Uncaught x

pub run_exception-Uncaught : (failure : RunFailure) → Uncaught (run_exception failure)
unfolding run_exception
run_exception-Uncaught missing_program = inr (inl refl)
run_exception-Uncaught null_byte = inr (inr (inl refl))
run_exception-Uncaught undecodable = inl refl
run_exception-Uncaught refused = inr (inr (inr refl))

split_keys-Expected : (keys : Text) (limit : ℕ) → Expected (split_keys keys limit)
unfolding split_keys
split_keys-Expected keys limit = elim (Bool-cases (has_surrogate keys)) [
  | inl bad ↦ rw bad (inr (inl refl))
  | inr clean ↦ elim (Bool-cases (leb (utf8_len keys) limit)) [
    | inl short ↦ rw (clean, short) tt
    | inr long ↦ rw (clean, long) tt
  ]
]

module _ {W : Type 0} (h : Host W) where
  pub checked_as-Expected :
      (what : Text) (args : List Text) (o : Ran) → Expected (checked_as h (dead h what) args o)
  checked_as-Expected what args (not_run failure) = inr (run_exception-Uncaught failure)
  checked_as-Expected what args (ran code out) = elim (Bool-cases (eq_ℤ code (pos 0))) [
    | inl zero_code ↦ rw zero_code tt
    | inr other ↦ rw other (inl (what ++ h.failure args (ran code out), refl))
  ]

  pub continue-Expected :
      {A B : Type 0} (r : Raises A) (w : W) (next : Action W B)
      → Expected r
      → ((v : W) → Expected (next v).0)
      → Expected (continue r (λ _. next) w).0
  continue-Expected (returns out) w next now later = later w
  continue-Expected (raises x) w next now later = now

  module _ (container_id session_name : Text) where
    send_chunks-Expected :
        (chunks : List Text) (w : W) → Expected (send_chunks h container_id session_name chunks w).0
    send_chunks-Expected [] w = tt
    send_chunks-Expected (chunk ∷ chunks) w =
        let args = key_args h container_id session_name chunk in
        continue-Expected
          (checked_as h (dead h (codes "send_keys failed: ")) args (h.spawn args w).0)
          (h.spawn args w).1 (send_chunks h container_id session_name chunks)
          (checked_as-Expected (codes "send_keys failed: ") args (h.spawn args w).0)
          (send_chunks-Expected chunks)

    send_split-Expected :
        (r : Raises (List Text)) (w : W)
        → Expected r
        → Expected (send_split h container_id session_name r w).0
    send_split-Expected (returns chunks) w e = send_chunks-Expected chunks w
    send_split-Expected (raises x) w e = e

    -- Whatever the processes do, if send_keys raises, it raises SessionDeadError, or
    -- UnicodeError, FileNotFoundError, ValueError or OSError, never CalledProcessError.
    pub send_keys-Expected :
        (keys : Text) (limit : ℕ) (w : W)
        → Expected (send_keys h container_id session_name keys limit w).0
    unfolding send_keys
    send_keys-Expected keys limit w = elim (Bool-cases (special_key (strip keys))) [
      | inl special ↦ rw special (send_chunks-Expected (strip keys ∷ []) w)
      | inr plain ↦
          rw plain (send_split-Expected (split_keys keys limit) w (split_keys-Expected keys limit))
    ]
