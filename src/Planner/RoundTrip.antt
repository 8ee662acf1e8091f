-- ===== src/Planner/RoundTrip.antt =====
-- The object that the schema asks for, and what reading it gives.
use termiclaw.Prelude.{
  ℕ, ◌+◌, Text, codes, nonempty, List, [], ◌∷◌, map, none, Bool, true, ◌≡◌, refl, All, arith,
}
use termiclaw.Float.{min_float}
use termiclaw.Errors.{ok, returns}
use termiclaw.Python.{
  Builtins, boolean, float, str, list, dict, Items, nil, cons, Fields, end, field, get, keys,
}
use termiclaw.Model.{ParsedCommand}
use termiclaw.Validate.{required_str, required_bool, optional_float, optional_list, require_dict}
use termiclaw.Planner.Parse.{
  parse_command, parse_items, extract_commands, map_to_parse_result, check_field_order,
  max_duration, some_keystrokes,
}

abbrev encode_command : ParsedCommand → Fields
encode_command cmd =
    field (codes "keystrokes") (str cmd.keystrokes)
      (field (codes "duration") (float cmd.duration) end)

encode_commands : List ParsedCommand → Items
encode_commands [] = nil
encode_commands (cmd ∷ cmds) = cons (dict (encode_command cmd)) (encode_commands cmds)

-- A response in the field order of the schema.
pub encode : Text → Text → List ParsedCommand → Bool → Fields
unfolding encode_commands
encode analysis plan cmds task_complete = field (codes "analysis") (str analysis) (
    field (codes "plan") (str plan) (
      field (codes "commands") (list (encode_commands cmds))
        (field (codes "task_complete") (boolean task_complete) end)))

-- The wait that is kept of a command.
pub capped : ParsedCommand → ParsedCommand
capped cmd = record cmd { duration = min_float cmd.duration max_duration }

parse_command-encode :
    (py : Builtins) (cmd : ParsedCommand) (i : ℕ)
    → nonempty cmd.keystrokes ≡ true
    → parse_command py (encode_command cmd) i ≡ returns (ok (capped cmd))
unfolding parse_command some_keystrokes required_str optional_float get capped
parse_command-encode py cmd i h = ground arith

parse_items-encode :
    (py : Builtins) (cmds : List ParsedCommand) (i : ℕ)
    → All (λ cmd. nonempty cmd.keystrokes ≡ true) cmds
    → parse_items py i (encode_commands cmds) ≡ returns (ok (map capped cmds))
unfolding parse_items encode_commands require_dict
parse_items-encode py [] i h = refl
parse_items-encode py (cmd ∷ cmds) i h =
    rw (parse_command-encode py cmd i h.0, parse_items-encode py cmds (i + 1) h.1)

-- An analysis, a plan, commands whose keystrokes are not empty, and a completion flag, written as
-- the JSON object of the schema, are read back: the waits capped at 60 seconds, no error, no
-- warning.
pub map_to_parse_result-encode :
    (py : Builtins) (analysis plan : Text) (cmds : List ParsedCommand) (task_complete : Bool)
    → All (λ cmd. nonempty cmd.keystrokes ≡ true) cmds
    → map_to_parse_result py (encode analysis plan cmds task_complete)
      ≡ returns (
          ok (record {
            analysis = analysis;
            plan = plan;
            commands = map capped cmds;
            task_complete = task_complete;
            error = none;
            warning = none;
          }))
unfolding map_to_parse_result encode required_str required_bool optional_list extract_commands get
    keys check_field_order
map_to_parse_result-encode py analysis plan cmds task_complete h =
    rw (parse_items-encode py cmds 0 h)
