-- ===== src/TaskFile.antt =====
-- task_file.py: tasks from TOML. What a file holds is a parameter: unreadable, no TOML, or the
-- decoded table, without dates and times, which the narrowing treats as any other wrong type.
pub mod RoundTrip
use termiclaw.Prelude.{ℤ, pos, Text, codes, ◌*◌, ◌++◌, List, [], ◌∷◌, Option, none, some, nonempty}
use termiclaw.Float.{Float, finite, ticks}
use termiclaw.Errors.{ok, err, ParseError, returns, raises}
use termiclaw.Python.{Builtins, Json, null, Fields, get}
use termiclaw.Validate.{
  Checked, Validated, ◌>>=◌, parse_error, require_dict, required_str, required_int, optional_str,
  optional_float,
}
use termiclaw.Verifier.{VerifierSpec}

pub record TaskSpec : Type 0 where
  pub name : Text
  pub instruction : Text
  pub verifier : Option VerifierSpec

-- What reading and decoding a file gives: OSError, a decoding error, or a value.
pub data File : Type 0 where
  unreadable invalid : Text → File
  decoded : Json → File

unfoldable pub optional_int : Builtins → Fields → Text → ℤ → Checked ℤ
optional_int py d field default = elim (get d field) [
  | none ↦ ok default
  | some v ↦ required_int py d field
]

-- `pattern_r.value or None`
abbrev pub or_none : Text → Option Text
or_none [] = none
or_none (c ∷ t) = some (c ∷ t)

abbrev pub default_timeout : Float
default_timeout = finite (pos (30 * ticks))

unfoldable pub parse_verifier : Builtins → Json → Validated VerifierSpec
unfolding optional_int
parse_verifier py raw = do
  obj ← returns (require_dict py raw (codes "verifier") [])
  command ← returns (required_str py obj (codes "command"))
  expected_exit ← returns (optional_int py obj (codes "expected_exit") (pos 0))
  pattern_text ← returns (optional_str py obj (codes "expected_output_pattern") [])
  timeout_seconds ← optional_float py obj (codes "timeout_seconds") default_timeout
  returns (
      ok (record {
        command = command;
        expected_exit = expected_exit;
        expected_output_pattern = or_none pattern_text;
        timeout_seconds = timeout_seconds;
      }))

-- `if raw_verifier is not None`; TOML has no null.
unfoldable pub verifier_of : Builtins → Option Json → Validated (Option VerifierSpec)
unfolding parse_verifier
verifier_of py none = returns (ok none)
verifier_of py (some null) = returns (ok none)
verifier_of py (some raw) = do verifier ← parse_verifier py raw; returns (ok (some verifier))

unfoldable pub load_task : Builtins → (path stem : Text) → File → Validated TaskSpec
unfolding verifier_of
load_task py path stem (unreadable e) =
    returns (err (parse_error (codes "<file>") (codes "unreadable: " ++ e) path))
load_task py path stem (invalid e) =
    returns (err (parse_error (codes "<toml>") (codes "invalid TOML: " ++ e) path))
load_task py path stem (decoded data_) = do
  obj ← returns (require_dict py data_ (codes "<root>") path)
  instruction ← returns (required_str py obj (codes "instruction"))
  verifier ← verifier_of py (get obj (codes "verifier"))
  returns (ok (record { name = stem; instruction = instruction; verifier = verifier }))

-- A file of a directory: its path, its stem, and what it holds.
pub record Entry : Type 0 where
  pub path : Text
  pub stem : Text
  pub file : File

-- The loop of `load_tasks_dir`, over the sorted paths.
unfoldable pub load_entries : Builtins → List Entry → Validated (List TaskSpec)
load_entries py [] = returns (ok [])
load_entries py (e ∷ es) = do
  task ← load_task py e.path e.stem e.file
  tasks ← load_entries py es
  returns (ok (task ∷ tasks))

-- `load_tasks_dir`: `none` is no directory.
unfoldable pub load_tasks_dir : Builtins → Text → Option (List Entry) → Validated (List TaskSpec)
load_tasks_dir py path none =
    returns (err (parse_error (codes "<dir>") (codes "not a directory") path))
load_tasks_dir py path (some entries) = load_entries py entries
