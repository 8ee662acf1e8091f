-- ===== src/Planner/Usage.antt =====
-- planner.py: the usage in the envelope, the session arguments of the CLI, and the retry loop.
use termiclaw.Prelude.{
  ℕ, zero, suc, ◌+◌, ℤ, pos, Text, codes, List, [], ◌∷◌, Option, none, some, Bool, true, false,
  ◌&&◌, ◌==◌, if◌then◌else◌,
}
use termiclaw.Float.{Float, finite}
use termiclaw.Errors.{
  Result, ok, err, Raises, returns, raises, PlannerError, subprocess_error, timeout_error,
}
use termiclaw.Python.{
  Builtins, Json, int, float, str, dict, Fields, end, get, Loaded, loaded, int_of, float_of,
  json_text,
}
use termiclaw.Model.{PlannerUsage}
use termiclaw.Action.{Action}

-- `d.get(k, default)`
abbrev get_default : Fields → Text → Json → Json
get_default d k default = elim (get d k) [ none ↦ default | some v ↦ v ]

abbrev empty_usage : PlannerUsage
empty_usage = record {
  input_tokens = pos 0;
  cache_read_input_tokens = pos 0;
  output_tokens = pos 0;
  cost_usd = finite (pos 0);
  duration_ms = pos 0;
  claude_session_id = [];
}

usage_fields : Json → Fields
usage_fields (dict d) = d
usage_fields v = end

infixl 5 ◌>>?◌
abbrev ◌>>?◌ : {A B : Type 0} → Raises A → (A → Raises B) → Raises B
returns a >>? f = f a
raises x >>? f = raises x

read_usage : Builtins → Fields → Fields → Raises PlannerUsage
read_usage py envelope usage =
    int_of py (get_default usage (codes "input_tokens") (int (pos 0))) >>? λ input.
    int_of py (get_default usage (codes "cache_read_input_tokens") (int (pos 0))) >>? λ cached.
    int_of py (get_default usage (codes "output_tokens") (int (pos 0))) >>? λ output.
    float_of py (get_default envelope (codes "total_cost_usd") (float (finite (pos 0)))) >>? λ cost.
    int_of py (get_default envelope (codes "duration_ms") (int (pos 0))) >>? λ duration.
    returns (record {
      input_tokens = input;
      cache_read_input_tokens = cached;
      output_tokens = output;
      cost_usd = cost;
      duration_ms = duration;
      claude_session_id = json_text py (get_default envelope (codes "session_id") (str []));
    })

usage_of : Builtins → Loaded → Raises PlannerUsage
unfolding usage_fields read_usage
usage_of py (loaded (dict envelope)) =
    read_usage py envelope (usage_fields (get_default envelope (codes "usage") (dict end)))
usage_of py _ = returns empty_usage

unfoldable pub extract_usage : Builtins → Text → Raises PlannerUsage
unfolding usage_of
extract_usage py raw = usage_of py (py.loads raw)

-- The arguments without a parent to resume.
own_session_args : Text → Bool → List Text
own_session_args [] first_call = []
own_session_args (c ∷ id) true = codes "--session-id" ∷ (c ∷ id) ∷ []
own_session_args (c ∷ id) false = codes "--resume" ∷ (c ∷ id) ∷ []

unfoldable pub build_session_args : Text → Bool → Option Text → Bool → List Text
unfolding own_session_args
build_session_args claude_session_id first_call none fork_session =
    own_session_args claude_session_id first_call
build_session_args claude_session_id first_call (some []) fork_session =
    own_session_args claude_session_id first_call
build_session_args claude_session_id first_call (some (c ∷ parent)) fork_session =
    codes "--resume" ∷ (c ∷ parent) ∷ (if fork_session then codes "--fork-session" ∷ [] else [])

-- What `subprocess.run` of the CLI gives: a finished process, or a timeout.
pub data Process : Type 0 where
  finished : (returncode : ℤ) (stdout stderr : Text) → Process
  timed_out : Process

-- The arguments of an attempt: the first attempt alone creates a session or forks.
unfoldable pub attempt_args : Text → Bool → Option Text → Bool → ℕ → List Text
attempt_args claude_session_id first_call resume_parent fork_session attempt =
    build_session_args claude_session_id (first_call && (attempt == 0)) resume_parent
      (fork_session && (attempt == 0))

-- The error of an attempt that failed, or the output of one that did not.
abbrev pub attempt_result : Float → Process → Result Text PlannerError
attempt_result timeout timed_out = err (timeout_error timeout)
attempt_result timeout (finished (pos zero) stdout stderr) = ok stdout
attempt_result timeout (finished code stdout stderr) = err (subprocess_error code stderr)

module _ {W : Type 0} (claude : List Text → Text → Action W Process) (timeout : Float) where
  -- The `for attempt in range(retries)` loop, on the attempts left, from attempt `k`.
  attempts : ℕ → ℕ → PlannerError → (ℕ → List Text) → Text → Action W (Result Text PlannerError)
  attempts zero k last args prompt w = (returns (err last), w)
  attempts (suc left) k last args prompt w =
      let (r, w') = claude (args k) prompt w in
      elim r [
        | raises x ↦ (raises x, w')
        | returns process ↦ elim (attempt_result timeout process) [
          | ok stdout ↦ (returns (ok stdout), w')
          | err e ↦ attempts left (k + 1) e args prompt w'
        ]
      ]

  -- `query_planner`, over the process that runs the CLI with the session arguments. The source
  -- logs a warning for each failed attempt.
  unfoldable pub query_planner :
      Text → ℕ → Text → Bool → Option Text → Bool → Action W (Result Text PlannerError)
  unfolding attempts attempt_args
  query_planner prompt retries claude_session_id first_call resume_parent fork_session =
      attempts retries 0 (subprocess_error (pos 0) (codes "no attempts made"))
        (attempt_args claude_session_id first_call resume_parent fork_session) prompt
