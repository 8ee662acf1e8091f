-- ===== src/Planner/Bounds.antt =====
-- What every accepted response satisfies.
use termiclaw.Prelude.{
  ℕ, ◌+◌, Text, codes, nonempty, List, [], ◌∷◌, Option, some, true, false, ◌≡◌, arith, All,
  Bool-cases, inl, inr,
}
use termiclaw.Float.{Float, min_float, ltb_float}
use termiclaw.Errors.{ok, returns}
use termiclaw.Python.{Builtins, Fields, Items, nil, cons, get, Json, dict}
use termiclaw.Model.{ParsedCommand, ParseResult}
use termiclaw.Validate.{
  Checked-cases, value, error, raised, ended, require_json_object, required_str, optional_float,
  optional_list, require_dict, required_bool,
}
use termiclaw.Planner.Parse.{
  parse_command, parse_items, extract_commands, map_to_parse_result, parse_response, max_duration,
  some_keystrokes, default_duration, command_field, text_response, structured_response, some_text,
}

-- A command that the shell can send: it has keystrokes, and no wait of more than the maximum.
pub record IsSendable (cmd : ParsedCommand) : Type 0 where
  pub keys : nonempty cmd.keystrokes ≡ true
  pub wait : ltb_float max_duration cmd.duration ≡ false

max_below : ltb_float max_duration max_duration ≡ false
unfolding ltb_float max_duration
max_below = ground arith

min_float-le : (x : Float) → ltb_float max_duration (min_float x max_duration) ≡ false
unfolding min_float
min_float-le x = elim (Bool-cases (ltb_float max_duration x)) [
  | inl e ↦ rw e max_below
  | inr e ↦ rw e e
]

some_keystrokes-nonempty :
    (py : Builtins) (d : Fields) (i : ℕ) (t s : Text)
    → some_keystrokes py d i t ≡ ok s
    → nonempty s ≡ true
unfolding some_keystrokes
some_keystrokes-nonempty py d i [] s h = cc
some_keystrokes-nonempty py d i (c ∷ t) s h = ground arith

parse_command-IsSendable :
    (py : Builtins) (d : Fields) (i : ℕ) (cmd : ParsedCommand)
    → parse_command py d i ≡ returns (ok cmd)
    → IsSendable cmd
unfolding parse_command
parse_command-IsSendable py d i cmd h =
    elim (Checked-cases (required_str py d (codes "keystrokes"))) [
      | inr (e, q) ↦ absurd (ground arith)
      | inl (t, q) ↦ elim (Checked-cases (some_keystrokes py d i t)) [
        | inr (e, q') ↦ absurd (ground arith)
        | inl (s, q') ↦ elim (ended (optional_float py d (codes "duration") default_duration)) [
          | value x r ↦ ground (arith, some_keystrokes-nonempty py d i t s q', min_float-le x)
          | error e r ↦ absurd (ground arith)
          | raised e r ↦ absurd (ground arith)
        ]
      ]
    ]

parse_items-IsSendable :
    (py : Builtins) (i : ℕ) (items : Items) (cmds : List ParsedCommand)
    → parse_items py i items ≡ returns (ok cmds)
    → All IsSendable cmds
unfolding parse_items
parse_items-IsSendable py i items [] h = tt
parse_items-IsSendable py i nil (c ∷ cmds) h = absurd (ground arith)
parse_items-IsSendable py i (cons item items) (c ∷ cmds) h =
    elim (Checked-cases (require_dict py item (command_field i []) [])) [
      | inr (e, q) ↦ absurd (ground arith)
      | inl (d, q) ↦ elim (ended (parse_command py d i)) [
        | error e r ↦ absurd (ground arith)
        | raised e r ↦ absurd (ground arith)
        | value a r ↦ elim (ended (parse_items py (i + 1) items)) [
          | error e r' ↦ absurd (ground arith)
          | raised e r' ↦ absurd (ground arith)
          | value more r' ↦ (
            parse_command-IsSendable py d i c (ground arith),
            parse_items-IsSendable py (i + 1) items cmds (ground arith),
          )
        ]
      ]
    ]

extract_commands-IsSendable :
    (py : Builtins) (obj : Fields) (cmds : List ParsedCommand)
    → extract_commands py obj ≡ returns (ok cmds)
    → All IsSendable cmds
unfolding extract_commands
extract_commands-IsSendable py obj cmds h =
    elim (Checked-cases (optional_list py obj (codes "commands"))) [
      | inr (e, q) ↦ absurd (ground arith)
      | inl (items, q) ↦ parse_items-IsSendable py 0 items cmds (ground arith)
    ]

map_to_parse_result-IsSendable :
    (py : Builtins) (obj : Fields) (r : ParseResult)
    → map_to_parse_result py obj ≡ returns (ok r)
    → All IsSendable r.commands
unfolding map_to_parse_result
map_to_parse_result-IsSendable py obj r h =
    elim (Checked-cases (required_str py obj (codes "analysis"))) [
      | inr (e, q) ↦ absurd (ground arith)
      | inl (a, q) ↦ elim (Checked-cases (required_str py obj (codes "plan"))) [
        | inr (e, q') ↦ absurd (ground arith)
        | inl (p, q') ↦ elim (ended (extract_commands py obj)) [
          | error e t ↦ absurd (ground arith)
          | raised e t ↦ absurd (ground arith)
          | value cmds t ↦ elim (Checked-cases (required_bool py obj (codes "task_complete"))) [
            | inr (e, q'') ↦ absurd (ground arith)
            | inl (b, q'') ↦ extract_commands-IsSendable py obj r.commands (ground arith)
          ]
        ]
      ]
    ]

text_response-IsSendable :
    (py : Builtins) (raw : Text) (envelope : Fields) (r : ParseResult)
    → text_response py raw envelope ≡ returns (ok r)
    → All IsSendable r.commands
unfolding text_response
text_response-IsSendable py raw envelope r h =
    elim (Checked-cases (required_str py envelope (codes "result"))) [
      | inr (e, q) ↦ absurd (ground arith)
      | inl (t, q) ↦ elim (Checked-cases (some_text raw t)) [
        | inr (e, q') ↦ absurd (ground arith)
        | inl (u, q') ↦ elim (Checked-cases (require_json_object py u)) [
          | inr (e, q'') ↦ absurd (ground arith)
          | inl (body, q'') ↦ map_to_parse_result-IsSendable py body r (ground arith)
        ]
      ]
    ]

structured :
    (py : Builtins) (raw : Text) (envelope : Fields) (o : Option Json) (r : ParseResult)
    → structured_response py raw envelope o ≡ returns (ok r)
    → All IsSendable r.commands
unfolding structured_response require_dict
structured py raw envelope (some (dict d)) r h = map_to_parse_result-IsSendable py d r h
structured py raw envelope o r h = text_response-IsSendable py raw envelope r h

-- Every response that parse_response accepts has commands only whose keystrokes are not empty and
-- whose wait is not above 60 seconds (a NaN counts as not above).
pub parse_response-IsSendable :
    (py : Builtins) (raw : Text) (r : ParseResult)
    → parse_response py raw ≡ returns (ok r)
    → All IsSendable r.commands
unfolding parse_response
parse_response-IsSendable py raw r h = elim (Checked-cases (require_json_object py raw)) [
  | inr (e, q) ↦ absurd (ground arith)
  | inl (envelope, q) ↦
      structured py raw envelope (get envelope (codes "structured_output")) r (ground arith)
]
