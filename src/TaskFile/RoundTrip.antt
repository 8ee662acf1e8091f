-- ===== src/TaskFile/RoundTrip.antt =====
-- The table of a task, and what loading it gives.
use termiclaw.Prelude.{
  ℤ, Text, codes, Option, none, some, nonempty, List, [], ◌∷◌, map, true, ◌≡◌, refl, All, arith,
}
use termiclaw.Float.{Float}
use termiclaw.Errors.{ok, returns}
use termiclaw.Python.{Builtins, int, float, str, dict, Fields, end, field, get}
use termiclaw.Validate.{require_dict, required_str, required_int, optional_str, optional_float}
use termiclaw.Verifier.{VerifierSpec}
use termiclaw.TaskFile.{
  TaskSpec, Entry, decoded, load_task, load_entries, load_tasks_dir, optional_int, parse_verifier,
  verifier_of,
}

abbrev pattern_field : Option Text → Fields → Fields
pattern_field none rest = rest
pattern_field (some p) rest = field (codes "expected_output_pattern") (str p) rest

abbrev encode_verifier : VerifierSpec → Fields
encode_verifier v = field (codes "command") (str v.command) (
    field (codes "expected_exit") (int v.expected_exit) (
      pattern_field v.expected_output_pattern
        (field (codes "timeout_seconds") (float v.timeout_seconds) end)))

abbrev verifier_field : Option VerifierSpec → Fields
verifier_field none = end
verifier_field (some v) = field (codes "verifier") (dict (encode_verifier v)) end

-- A task as a TOML table with every field written out.
abbrev pub encode_task : TaskSpec → Fields
encode_task task = field (codes "instruction") (str task.instruction) (verifier_field task.verifier)

-- A pattern that is there is not empty.
abbrev pub PatternFits : Option Text → Type 0
PatternFits none = Unit {0}
PatternFits (some p) = nonempty p ≡ true

abbrev pub Writable : TaskSpec → Type 0
Writable task = elim task.verifier [
  | none ↦ Unit {0}
  | some v ↦ PatternFits v.expected_output_pattern
]

abbrev pub entry_of : TaskSpec → Entry
entry_of task = record {
  path = task.name;
  stem = task.name;
  file = decoded (dict (encode_task task));
}

abbrev spec_of : Text → ℤ → Option Text → Float → VerifierSpec
spec_of command exit pattern timeout = record {
  command = command;
  expected_exit = exit;
  expected_output_pattern = pattern;
  timeout_seconds = timeout;
}

parse_verifier-encode :
    (py : Builtins) (command : Text) (exit : ℤ) (p : Option Text) (timeout : Float)
    → PatternFits p
    → parse_verifier py (dict (encode_verifier (spec_of command exit p timeout)))
      ≡ returns (ok (spec_of command exit p timeout))
unfolding parse_verifier require_dict required_str required_int optional_str optional_float
    optional_int get
parse_verifier-encode py command exit none timeout h = refl
parse_verifier-encode py command exit (some []) timeout h = absurd (ground arith)
parse_verifier-encode py command exit (some (c ∷ p)) timeout h = refl

abbrev task_of : Text → Text → Option VerifierSpec → TaskSpec
task_of name instruction verifier = record {
  name = name;
  instruction = instruction;
  verifier = verifier;
}

load_task-encode :
    (py : Builtins) (path name instruction : Text) (v : Option VerifierSpec)
    → Writable (task_of name instruction v)
    → load_task py path name (decoded (dict (encode_task (task_of name instruction v))))
      ≡ returns (ok (task_of name instruction v))
unfolding load_task verifier_of require_dict required_str get
load_task-encode py path name instruction none h = refl
load_task-encode py path name instruction (some v) h =
    rw
      (parse_verifier-encode py v.command v.expected_exit v.expected_output_pattern
        v.timeout_seconds h)
      refl

-- Tasks whose patterns, where they have one, are not empty, written as tables with every field
-- and named by their files, are loaded from their directory as they were, in order.
pub load_tasks_dir-encode :
    (py : Builtins) (path : Text) (tasks : List TaskSpec)
    → All Writable tasks
    → load_tasks_dir py path (some (map entry_of tasks)) ≡ returns (ok tasks)
unfolding load_tasks_dir load_entries
load_tasks_dir-encode py path [] h = refl
load_tasks_dir-encode py path (t ∷ tasks) h =
    rw
      (
        load_task-encode py t.name t.name t.instruction t.verifier h.0,
        load_tasks_dir-encode py path tasks h.1,
      )
      refl
