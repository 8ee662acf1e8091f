-- ===== src/Planner/Parse.antt =====
-- planner.py: reading the envelope of `claude -p`, its structured answer, and its usage.
use termiclaw.Prelude.{
  ℕ, ◌+◌, ◌*◌, ◌/◌, pos, Text, codes, decimal, text_eq, strip, nonempty, take, List, [], ◌∷◌, ◌++◌,
  Option, none, some, leb, if◌then◌else◌,
}
use termiclaw.Float.{Float, finite, min_float, ticks}
use termiclaw.Errors.{ok, err, returns, raises}
use termiclaw.Python.{Builtins, Json, str, list, dict, Items, nil, cons, Fields, get, keys}
use termiclaw.Model.{ParsedCommand, ParseResult}
use termiclaw.Validate.{
  Checked, Validated, ◌>>=◌, parse_error, require_dict, require_json_object, required_str,
  required_bool, optional_float, optional_list,
}

-- `_MAX_DURATION`, sixty seconds
unfoldable pub max_duration : Float
unfolding ticks
max_duration = finite (pos (60 * ticks))

-- `_DEFAULT_DURATION`, half a second
unfoldable pub default_duration : Float
unfolding ticks
default_duration = finite (pos (ticks / 2))

-- f"commands[{idx}]"
pub command_field : ℕ → Text → Text
command_field idx rest = codes "commands[" ++ (decimal idx ++ (codes "]" ++ rest))

-- An error of a command's field, under the field's whole name.
abbrev pub relabel : {A : Type 0} → Builtins → Fields → Text → Checked A → Checked A
relabel py d name (ok a) = ok a
relabel py d name (err e) = err (parse_error name e.reason (py.repr (dict d)))

abbrev pub relabeled : {A : Type 0} → Builtins → Fields → Text → Validated A → Validated A
relabeled py d name (returns r) = returns (relabel py d name r)
relabeled py d name (raises x) = raises x

-- `if not keystrokes`
unfoldable pub some_keystrokes : Builtins → Fields → ℕ → Text → Checked Text
unfolding command_field
some_keystrokes py d idx [] = err (
    parse_error (command_field idx (codes ".keystrokes")) (codes "empty string") (py.repr (dict d)))
some_keystrokes py d idx (c ∷ t) = ok (c ∷ t)

unfoldable pub parse_command : Builtins → Fields → ℕ → Validated ParsedCommand
unfolding some_keystrokes command_field
parse_command py d idx = do
  keystrokes ← returns (
      relabel py d (command_field idx (codes ".keystrokes"))
        (required_str py d (codes "keystrokes")))
  sent ← returns (some_keystrokes py d idx keystrokes)
  duration ←
      relabeled py d (command_field idx (codes ".duration"))
        (optional_float py d (codes "duration") default_duration)
  returns (ok (record { keystrokes = sent; duration = min_float duration max_duration }))

-- The loop over the items, from index `i`.
unfoldable pub parse_items : Builtins → ℕ → Items → Validated (List ParsedCommand)
unfolding parse_command command_field
parse_items py i nil = returns (ok [])
parse_items py i (cons item items) =
    let rest = parse_items py (i + 1) items in
    do
      d ← returns (require_dict py item (command_field i []) [])
      cmd ← parse_command py d i
      more ← rest
      returns (ok (cmd ∷ more))

unfoldable pub extract_commands : Builtins → Fields → Validated (List ParsedCommand)
unfolding parse_items
extract_commands py obj = do
  raw ← returns (optional_list py obj (codes "commands"))
  parse_items py 0 raw

-- `fields.index(f)`, counted from `i`; `none` where `f in fields` is false.
position : ℕ → Text → List Text → Option ℕ
position i f [] = none
position i f (g ∷ fs) = if text_eq g f then some i else position (i + 1) f fs

positions : List Text → List Text → List ℕ
unfolding position
positions fields [] = []
positions fields (f ∷ fs) = elim (position 0 f fields) [
  | none ↦ positions fields fs
  | some i ↦ i ∷ positions fields fs
]

insert_sorted : ℕ → List ℕ → List ℕ
insert_sorted n [] = n ∷ []
insert_sorted n (m ∷ ms) = if leb n m then n ∷ m ∷ ms else m ∷ insert_sorted n ms

-- `sorted(...)` of numbers
sorted : List ℕ → List ℕ
unfolding insert_sorted
sorted [] = []
sorted (n ∷ ns) = insert_sorted n (sorted ns)

-- A list of texts as a decoded value, to show it.
text_items : List Text → Items
text_items [] = nil
text_items (t ∷ ts) = cons (str t) (text_items ts)

abbrev expected_order : List Text
expected_order = codes "analysis" ∷ codes "plan" ∷ codes "commands" ∷ codes "task_complete" ∷ []

unfoldable pub check_field_order : Builtins → Fields → Option Text
unfolding positions sorted text_items keys
check_field_order py obj =
    let found = positions (keys obj) expected_order in
    if text_eq found (sorted found)
    then none
    else some (codes "Fields out of expected order: " ++ py.repr (list (text_items (keys obj))))

unfoldable pub map_to_parse_result : Builtins → Fields → Validated ParseResult
unfolding extract_commands check_field_order
map_to_parse_result py obj = do
  analysis ← returns (required_str py obj (codes "analysis"))
  plan ← returns (required_str py obj (codes "plan"))
  commands ← extract_commands py obj
  task_complete ← returns (required_bool py obj (codes "task_complete"))
  returns (
      ok (record {
        analysis = analysis;
        plan = plan;
        commands = commands;
        task_complete = task_complete;
        error = none;
        warning = check_field_order py obj;
      }))

-- `if not text.strip()`
unfoldable pub some_text : Text → Text → Checked Text
some_text raw text =
    if nonempty (strip text)
    then ok text
    else err (parse_error (codes "result") (codes "empty string") (take 500 raw))

-- The answer in the text of `result`.
unfoldable pub text_response : Builtins → Text → Fields → Validated ParseResult
unfolding map_to_parse_result some_text
text_response py raw envelope = do
  text ← returns (required_str py envelope (codes "result"))
  answer ← returns (some_text raw text)
  body ← returns (require_json_object py answer)
  map_to_parse_result py body

unfoldable pub structured_response : Builtins → Text → Fields → Option Json → Validated ParseResult
unfolding text_response
structured_response py raw envelope (some (dict d)) = do
  body ← returns (require_dict py (dict d) (codes "structured_output") (take 500 raw))
  map_to_parse_result py body
structured_response py raw envelope other = text_response py raw envelope

unfoldable pub parse_response : Builtins → Text → Validated ParseResult
unfolding structured_response
parse_response py raw = do
  envelope ← returns (require_json_object py raw)
  structured_response py raw envelope (get envelope (codes "structured_output"))
