-- ===== src/Verifier.antt =====
-- verifier.py: the check of a task by a command in its container. The docker process is a
-- parameter, and so are Python's `re` and the seconds that went by.
pub mod Accepts
use termiclaw.Prelude.{
  ℤ, pos, negsuc, Text, codes, List, [], ◌∷◌, ◌++◌, Option, none, some, Bool, true, false, eq_ℤ,
  if◌then◌else◌,
}
use termiclaw.Float.{Float, finite, ticks}
use termiclaw.Errors.{Result, ok, err, ContainerError, container_error}
use termiclaw.Action.{Action, pure, ◌>>=◌}

pub record VerifierSpec : Type 0 where
  pub command : Text
  pub expected_exit : ℤ
  pub expected_output_pattern : Option Text
  pub timeout_seconds : Float

pub record VerifierResult : Type 0 where
  pub passed : Bool
  pub actual_exit : ℤ
  pub actual_output : Text
  pub elapsed_seconds : Float
  pub reason : Text

-- How `subprocess.run` ended: a process, TimeoutExpired, or FileNotFoundError.
pub data Outcome : Type 0 where
  exited : (returncode : ℤ) (stdout : Text) → Outcome
  expired no_docker : Outcome

-- `re.compile(pattern, re.MULTILINE)` and `search`: the message of an invalid pattern, or whether
-- there is a match.
abbrev pub Search : Type 0
Search = Text → Text → Result Bool Text

abbrev pub verifier_args : Text → VerifierSpec → List Text
verifier_args container_id spec =
    codes "docker" ∷ codes "exec" ∷ container_id ∷ codes "bash" ∷ codes "-c" ∷ spec.command ∷ []

abbrev pub result_of : Bool → ℤ → Text → Float → Text → Result VerifierResult ContainerError
result_of passed exit output elapsed reason = ok (record {
  passed = passed;
  actual_exit = exit;
  actual_output = output;
  elapsed_seconds = elapsed;
  reason = reason;
})

-- The pattern's verdict, once the exit code is the expected one.
matched : ℤ → Text → Float → Result Bool Text → Result VerifierResult ContainerError
matched exit output elapsed (err e) = err (container_error (codes "invalid verifier regex: " ++ e))
matched exit output elapsed (ok false) =
    result_of false exit output elapsed (codes "pattern_mismatch")
matched exit output elapsed (ok true) = result_of true exit output elapsed (codes "pass")

unfoldable pub pattern_of :
    Search → Option Text → ℤ → Text → Float → Result VerifierResult ContainerError
unfolding matched
pattern_of search none exit output elapsed = result_of true exit output elapsed (codes "pass")
pattern_of search (some pattern) exit output elapsed =
    matched exit output elapsed (search pattern output)

unfoldable pub verdict :
    Search → VerifierSpec → Float → Outcome → Result VerifierResult ContainerError
unfolding pattern_of
verdict search spec elapsed expired = result_of false (negsuc 0) [] elapsed (codes "timeout")
verdict search spec elapsed no_docker = err (container_error (codes "docker binary not found"))
verdict search spec elapsed (exited exit output) =
    if eq_ℤ exit spec.expected_exit
    then pattern_of search spec.expected_output_pattern exit output elapsed
    else result_of false exit output elapsed (codes "exit_mismatch")

-- `verify`, with the process and the seconds given.
unfoldable pub verify :
    {W : Type 0}
    → Search
    → (List Text → Float → Action W (Outcome × Float))
    → Text
    → VerifierSpec
    → Action W (Result VerifierResult ContainerError)
verify search run container_id spec = do
  (outcome, elapsed) ← run (verifier_args container_id spec) spec.timeout_seconds
  pure (verdict search spec elapsed outcome)

unfoldable pub reward_from_result : VerifierResult → Float
reward_from_result result = finite (pos (if result.passed then ticks else 0))
