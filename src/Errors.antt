-- ===== src/Errors.antt =====
-- errors.py: the error families, their messages, and the Python exceptions that the modelled code
-- can raise. result.py: `Result`.
use termiclaw.Prelude.{ℤ, Text, codes, take, ◌++◌, decimal_ℤ, ◌⊎◌, inl, inr, ◌≡◌, refl}
use termiclaw.Float.{Float}

-- `Ok[T] | Err[E]`
pub data Result (A E : Type 0) : Type 0 where
  ok : A → Result A E
  err : E → Result A E

pub record ParseError : Type 0 where
  pub field : Text
  pub reason : Text
  pub raw : Text

-- `PlannerError` and its two subclasses.
pub data PlannerError : Type 0 where
  planner_error : Text → PlannerError
  subprocess_error : ℤ → Text → PlannerError
  timeout_error : Float → PlannerError

-- `ContainerError` and its subclasses.
pub data ContainerError : Type 0 where
  container_error image_build_error provision_error session_dead : Text → ContainerError

pub record SummarizationError : Type 0 where
  pub message : Text

pub record ArtifactRefreshError : Type 0 where
  pub message : Text

-- What a raise carries. The last fifteen stand for exceptions of Python and its library.
pub data Exception : Type 0 where
  planner : PlannerError → Exception
  container : ContainerError → Exception
  summarization : SummarizationError → Exception
  artifact_refresh : ArtifactRefreshError → Exception
  database : Text → Exception
  mcts : Text → Exception
  zero_division overflow value_error type_error unicode_error keyboard_interrupt : Exception
  runtime_error called_process_error file_not_found attribute_error key_error json_error : Exception
  os_error integrity_error operational_error : Exception

-- A computation that returns or raises.
pub data Raises (A : Type 0) : Type 0 where
  returns : A → Raises A
  raises : Exception → Raises A

-- `str(e)` of a `ParseError`
unfoldable pub parse_error_text : ParseError → Text
parse_error_text e = codes "ParseError at `" ++ (e.field ++ (codes "`: " ++ e.reason))

-- `str(e)` of a planner error, with `str` of a float given.
unfoldable pub planner_error_text : (Float → Text) → PlannerError → Text
planner_error_text show (planner_error m) = m
planner_error_text show (subprocess_error code stderr) =
    codes "claude -p exited " ++ (decimal_ℤ code ++ (codes ": " ++ take 500 stderr))
planner_error_text show (timeout_error t) =
    codes "claude -p exceeded " ++ (show t ++ codes "s timeout")

-- To split on a computed outcome and keep the equation.
pub Raises-cases :
    {A : Type 0} (r : Raises A) → ((a : A) × (r ≡ returns a)) ⊎ ((x : Exception) × (r ≡ raises x))
Raises-cases (returns a) = inl (a, refl)
Raises-cases (raises x) = inr (x, refl)

pub Result-cases :
    {A E : Type 0} (r : Result A E) → ((a : A) × (r ≡ ok a)) ⊎ ((e : E) × (r ≡ err e))
Result-cases (ok a) = inl (a, refl)
Result-cases (err e) = inr (e, refl)
