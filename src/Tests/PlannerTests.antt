-- ===== src/Tests/PlannerTests.antt =====
-- Responses of the planner, read and refused.
use termiclaw.Prelude.{
  pos, codes, [], ◌∷◌, map, none, some, true, false, ◌≡◌, refl, All, ◌&&◌, ◌==◌, ◌*◌, ◌^◌,
}
use termiclaw.Float.{finite, nan, min_float, ltb_float, float_of_int, ticks}
use termiclaw.Errors.{ok, returns}
use termiclaw.Python.{Builtins, Json, str, list, dict, cons, nil, Fields, end, field, get, loaded}
use termiclaw.Model.{ParseResult}
use termiclaw.Validate.{
  Validated, require_json_object, require_dict, required_str, required_bool, optional_float,
  optional_list,
}
use termiclaw.Planner.Parse.{
  parse_response, structured_response, map_to_parse_result, extract_commands, parse_items,
  parse_command, some_keystrokes, max_duration,
}
use termiclaw.Planner.Bounds.{IsSendable, parse_response-IsSendable}
use termiclaw.Planner.RoundTrip.{encode, capped, map_to_parse_result-encode}
use termiclaw.Planner.Usage.{attempt_args}
use termiclaw.Planner.Flags.{read_options, no_options, session_options, attempt_flags}
use termiclaw.Tests.Fixtures.{py, ls}

abbrev response : Fields
response =
    field (codes "structured_output")
      (dict (
        field (codes "analysis") (str (codes "a")) (
          field (codes "plan") (str (codes "p")) (
            field (codes "commands")
              (list (cons (dict (field (codes "keystrokes") (str (codes "ls")) end)) nil))
              (field (codes "task_complete") (Json.boolean false) end)))))
      end

-- A decoder that reads every text as that response.
abbrev reader : Builtins
reader = record py { loads = λ t. loaded (dict response) }

abbrev value_of : Validated ParseResult → ParseResult
value_of (returns (ok r)) = r
value_of _ = record {
  analysis = [];
  plan = [];
  commands = [];
  task_complete = false;
  error = none;
  warning = none;
}

abbrev accepted : ParseResult
accepted = value_of (parse_response reader (codes "{}"))

accepted_returns : parse_response reader (codes "{}") ≡ returns (ok accepted)
unfolding parse_response structured_response map_to_parse_result extract_commands parse_items
    parse_command some_keystrokes require_json_object require_dict required_str required_bool
    optional_float optional_list get
accepted_returns = refl

parse_response-IsSendable_example : All IsSendable accepted.commands
parse_response-IsSendable_example =
    parse_response-IsSendable reader (codes "{}") accepted accepted_returns

map_to_parse_result-encode_example :
    map_to_parse_result py (encode (codes "a") (codes "p") (ls ∷ []) true)
    ≡ returns (
        ok (record {
          analysis = codes "a";
          plan = codes "p";
          commands = map capped (ls ∷ []);
          task_complete = true;
          error = none;
          warning = none;
        }))
map_to_parse_result-encode_example =
    map_to_parse_result-encode py (codes "a") (codes "p") (ls ∷ []) true (refl, tt)

-- The retry of a fork resumes the parent itself.
attempt_flags_example :
    read_options (attempt_args (codes "own") true (some (codes "parent")) true 1) no_options
    ≡ some (
        session_options (codes "own") (true && (1 == 0)) (some (codes "parent")) (true && (1 == 0)))
attempt_flags_example = attempt_flags (codes "own") true (some (codes "parent")) true 1

-- A wait that is no number is kept: `min(nan, 60.0)` is nan.
nan_wait : min_float nan max_duration ≡ nan
unfolding min_float ltb_float max_duration
nan_wait = refl

-- `float(2 ** 53 + 1)` rounds to even, and `float(2 ** 1024)` overflows.
rounded :
    float_of_int (pos 9_007_199_254_740_993) ≡ some (finite (pos (9_007_199_254_740_992 * ticks)))
unfolding float_of_int ticks
rounded = refl

too_large : float_of_int (pos (2 ^ 1024)) ≡ none
unfolding float_of_int
too_large = refl
