-- ===== src/Verifier/Accepts.antt =====
-- What passes the check of verifier.py.
use termiclaw.Prelude.{
  ℤ, Text, Option, none, some, true, false, ◌≡◌, ◌↔◌, arith, eq_ℤ, inl, inr, Bool-cases, eq_ℤ→eq,
  eq_ℤ_refl,
}
use termiclaw.Float.{Float}
use termiclaw.Errors.{ok, Result-cases}
use termiclaw.Verifier.{
  Search, VerifierSpec, VerifierResult, Outcome, exited, expired, no_docker, verdict, pattern_of,
}

-- The output fits the pattern, if there is one.
abbrev pub Fits : Search → Option Text → Text → Type 0
Fits search none output = Unit {0}
Fits search (some pattern) output = search pattern output ≡ ok true

-- A process that ended with the expected exit code, and an output that fits.
abbrev pub Accepts : Search → VerifierSpec → Outcome → Type 0
Accepts search spec expired = ⊥
Accepts search spec no_docker = ⊥
Accepts search spec (exited exit output) =
    (exit ≡ spec.expected_exit) × Fits search spec.expected_output_pattern output

pattern_Fits :
    (search : Search) (spec : VerifierSpec) (elapsed : Float) (exit : ℤ) (output : Text)
    (p : Option Text) (r : VerifierResult)
    → pattern_of search p exit output elapsed ≡ ok r
    → (r.passed ≡ true) ↔ Fits search p output
unfolding pattern_of
pattern_Fits search spec elapsed exit output none r h = (λ e. tt, λ f. ground arith)
pattern_Fits search spec elapsed exit output (some p) r h = elim (Result-cases (search p output)) [
  | inr (m, eq) ↦ absurd (ground arith)
  | inl (true, eq) ↦ (λ e. eq, λ f. ground arith)
  | inl (false, eq) ↦ (λ e. absurd (ground arith), λ f. absurd (ground arith))
]

-- Whenever the check of a task gives a result, the result has passed exactly if the process ended
-- by itself with the expected exit code and its output matches the pattern, if there is one.
pub verdict-Accepts :
    (search : Search) (spec : VerifierSpec) (elapsed : Float) (outcome : Outcome)
    (r : VerifierResult)
    → verdict search spec elapsed outcome ≡ ok r
    → (r.passed ≡ true) ↔ Accepts search spec outcome
unfolding verdict
verdict-Accepts search spec elapsed expired r h = (λ e. absurd (ground arith), λ f. absurd f)
verdict-Accepts search spec elapsed no_docker r h = absurd (ground arith)
verdict-Accepts search spec elapsed (exited exit output) r h =
    elim (Bool-cases (eq_ℤ exit spec.expected_exit)) [
      | inl same ↦
          let (to, from) =
            pattern_Fits search spec elapsed exit output spec.expected_output_pattern r
              (rw same at h) in
          (λ e. (eq_ℤ→eq exit spec.expected_exit same, to e), λ f. from f.1)
      | inr other ↦
          (λ e. absurd (ground arith), λ f. absurd (ground (arith, f.0, eq_ℤ_refl exit, other)))
    ]
