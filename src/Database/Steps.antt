-- ===== src/Database/Steps.antt =====
-- db.py: the steps of a run, read back with their commands. Steps of one index are read in the order of the
-- table.
use termiclaw.Prelude.{
  ℕ, ℤ, Text, text_eq, text_eq_refl, List, [], ◌∷◌, ◌++◌, append-nil, append_assoc, map, Bool,
  false, ◌≡◌, refl, sym, ap, ◌∙◌, ltb, All, All-append, if◌then◌else◌,
}
use termiclaw.Float.{Float}
use termiclaw.Model.{StepRecord, ParsedCommand}
use termiclaw.Database.{Db, StepRow, CommandRow, Spent, step_row, command_row, stored_step}
use termiclaw.Database.Query.{or_empty}
use termiclaw.Database.Store.{commands_of, commands_of-append, commands_of-step, text_eq_sym}
use termiclaw.Database.Usage.{insert_steps, IsNew, without-IsNew}

-- The dictionary of a step.
pub record StepInfo : Type 0 where
  pub step_id : Text
  pub step_index : ℕ
  pub timestamp : Text
  pub source : Text
  pub analysis : Text
  pub observation : Text
  pub error : Text
  pub task_complete : Bool
  pub input_tokens : ℤ
  pub output_tokens : ℤ
  pub cost_usd : Float
  pub planner_duration_ms : ℤ
  pub commands : List ParsedCommand

abbrev pub step_info : List CommandRow → StepRow → StepInfo
step_info commands r = record {
  step_id = r.step_id;
  step_index = r.step_index;
  timestamp = r.timestamp;
  source = r.source;
  analysis = or_empty r.analysis;
  observation = r.observation;
  error = or_empty r.error;
  task_complete = r.task_complete;
  input_tokens = r.input_tokens;
  output_tokens = r.output_tokens;
  cost_usd = r.cost_usd;
  planner_duration_ms = r.planner_duration_ms;
  commands = commands_of commands r.step_id;
}

-- `WHERE run_id=?`
abbrev pub steps_of : Text → List StepRow → List StepRow
steps_of run_id [] = []
steps_of run_id (r ∷ rs) =
    let rest = steps_of run_id rs in if text_eq r.run_id run_id then r ∷ rest else rest

-- `ORDER BY step_index`
abbrev pub insert_by_index : StepRow → List StepRow → List StepRow
insert_by_index r [] = r ∷ []
insert_by_index r (q ∷ qs) =
    let later = insert_by_index r qs in
    if ltb q.step_index r.step_index then q ∷ later else r ∷ q ∷ qs

abbrev pub by_index : List StepRow → List StepRow
by_index [] = []
by_index (r ∷ rs) = insert_by_index r (by_index rs)

unfoldable pub get_steps : Db → Text → List StepInfo
get_steps db run_id = map (step_info db.commands) (by_index (steps_of run_id db.steps))

-- The rows of steps, and of their commands.
abbrev pub rows_of : Text → List (StepRecord × Spent) → List StepRow
rows_of run_id [] = []
rows_of run_id ((s, x) ∷ rest) = step_row run_id s x ∷ rows_of run_id rest

abbrev pub command_rows : List (StepRecord × Spent) → List CommandRow
command_rows [] = []
command_rows ((s, x) ∷ rest) = map (command_row s.step_id) s.commands ++ command_rows rest

-- An id that no step of a list has.
abbrev pub NotIn : Text → List (StepRecord × Spent) → Type 0
NotIn id steps = All (λ p. text_eq id p.0.step_id ≡ false) steps

-- Step ids that are new to a table, and differ from each other.
abbrev pub AllFresh : List StepRow → List (StepRecord × Spent) → Type 0
AllFresh rows [] = Unit {0}
AllFresh rows ((s, x) ∷ rest) = IsNew s.step_id rows × NotIn s.step_id rest × AllFresh rows rest

AllFresh-more :
    (run_id : Text) (s : StepRecord) (x : Spent) (rows : List StepRow)
    (steps : List (StepRecord × Spent))
    → NotIn s.step_id steps
    → AllFresh rows steps
    → AllFresh (rows ++ step_row run_id s x ∷ []) steps
AllFresh-more run_id s x rows [] other h = tt
AllFresh-more run_id s x rows ((t, y) ∷ rest) (now, later) (new, apart, more) = (
  All-append (λ r. text_eq r.step_id t.step_id ≡ false) rows (step_row run_id s x ∷ []) new
      (now, tt),
  apart,
  AllFresh-more run_id s x rows rest later more,
)

insert_steps-tables :
    (db : Db) (run_id : Text) (steps : List (StepRecord × Spent))
    → AllFresh db.steps steps
    → insert_steps db run_id steps ≡ record db {
      steps = db.steps ++ rows_of run_id steps;
      commands = db.commands ++ command_rows steps;
    }
unfolding stored_step
insert_steps-tables db run_id [] h =
    ap (λ rows. record db { steps = rows; commands = db.commands }) (sym (append-nil db.steps))
    ∙ ap (λ rows. record db { steps = db.steps ++ []; commands = rows })
        (sym (append-nil db.commands))
insert_steps-tables db run_id ((s, x) ∷ rest) (new, apart, more) =
    ap
      (λ rows.
        insert_steps (record db { steps = rows ++ step_row run_id s x ∷ []; commands = here })
          run_id rest)
      (without-IsNew s.step_id db.steps new)
    ∙ insert_steps-tables
        (record db { steps = db.steps ++ step_row run_id s x ∷ []; commands = here }) run_id rest
        (AllFresh-more run_id s x db.steps rest apart more)
    ∙ ap (λ rows. record db { steps = rows; commands = here ++ command_rows rest })
        (append_assoc db.steps (step_row run_id s x ∷ []) (rows_of run_id rest))
    ∙ ap
        (λ rows. record db {
          steps = db.steps ++ step_row run_id s x ∷ rows_of run_id rest;
          commands = rows;
        })
        (append_assoc db.commands (map (command_row s.step_id) s.commands) (command_rows rest))
  where
    here : List CommandRow
    here = db.commands ++ map (command_row s.step_id) s.commands

steps_of-append :
    (run_id : Text) (rs qs : List StepRow)
    → All (λ r. text_eq r.run_id run_id ≡ false) rs
    → steps_of run_id (rs ++ qs) ≡ steps_of run_id qs
steps_of-append run_id [] qs h = refl
steps_of-append run_id (r ∷ rs) qs (now, later) = rw now (steps_of-append run_id rs qs later)

steps_of-rows_of :
    (run_id : Text) (steps : List (StepRecord × Spent))
    → steps_of run_id (rows_of run_id steps) ≡ rows_of run_id steps
steps_of-rows_of run_id [] = refl
steps_of-rows_of run_id ((s, x) ∷ rest) =
    rw (text_eq_refl run_id) (ap (λ l. step_row run_id s x ∷ l) (steps_of-rows_of run_id rest))

-- Indexes that do not fall.
abbrev pub InOrder : List (StepRecord × Spent) → Type 0
InOrder [] = Unit {0}
InOrder ((s, x) ∷ rest) = All (λ p. ltb p.1.step_index x.step_index ≡ false) rest × InOrder rest

by_index-rows_of :
    (run_id : Text) (steps : List (StepRecord × Spent))
    → InOrder steps
    → by_index (rows_of run_id steps) ≡ rows_of run_id steps
by_index-rows_of run_id [] h = refl
by_index-rows_of run_id ((s, x) ∷ []) h = refl
by_index-rows_of run_id ((s, x) ∷ (t, y) ∷ rest) ((now, later), more) =
    ap (insert_by_index (step_row run_id s x)) (by_index-rows_of run_id ((t, y) ∷ rest) more)
    ∙ rw now refl

-- What a step reads back as.
abbrev pub logged : Text → StepRecord × Spent → StepInfo
logged run_id (s, x) = record (step_info [] (step_row run_id s x)) { commands = s.commands }

commands_of-mixed :
    (cs : List CommandRow) (step_id : Text) (cmds : List ParsedCommand) (id : Text)
    → text_eq step_id id ≡ false
    → commands_of (cs ++ map (command_row step_id) cmds) id ≡ commands_of cs id
commands_of-mixed cs step_id cmds id other =
    commands_of-append cs (map (command_row step_id) cmds) id
    ∙ ap (λ l. commands_of cs id ++ l)
        (commands_of-step step_id cmds id ∙ ap (λ b. if b then cmds else []) other)
    ∙ append-nil (commands_of cs id)

command_rows-NotIn :
    (id : Text) (steps : List (StepRecord × Spent))
    → NotIn id steps
    → commands_of (command_rows steps) id ≡ []
command_rows-NotIn id [] h = refl
command_rows-NotIn id ((s, x) ∷ rest) (now, later) =
    commands_of-append (map (command_row s.step_id) s.commands) (command_rows rest) id
    ∙ ap (λ l. l ++ commands_of (command_rows rest) id)
        (commands_of-mixed [] s.step_id s.commands id (text_eq_sym s.step_id id ∙ now))
    ∙ command_rows-NotIn id rest later

commands_of-own :
    (cs : List CommandRow) (s : StepRecord) (rest : List (StepRecord × Spent))
    → commands_of cs s.step_id ≡ []
    → NotIn s.step_id rest
    → commands_of (cs ++ (map (command_row s.step_id) s.commands ++ command_rows rest)) s.step_id
      ≡ s.commands
commands_of-own cs s rest none_before none_after =
    commands_of-append cs (own ++ command_rows rest) s.step_id
    ∙ ap (λ l. l ++ commands_of (own ++ command_rows rest) s.step_id) none_before
    ∙ commands_of-append own (command_rows rest) s.step_id
    ∙ ap (λ l. commands_of own s.step_id ++ l) (command_rows-NotIn s.step_id rest none_after)
    ∙ append-nil (commands_of own s.step_id)
    ∙ commands_of-step s.step_id s.commands s.step_id
    ∙ ap (λ b. if b then s.commands else []) (text_eq_refl s.step_id)
  where
    own : List CommandRow
    own = map (command_row s.step_id) s.commands

-- Steps without commands in a table.
abbrev pub AllSilent : List CommandRow → List (StepRecord × Spent) → Type 0
AllSilent cs steps = All (λ p. commands_of cs p.0.step_id ≡ []) steps

AllSilent-more :
    (cs : List CommandRow) (s : StepRecord) (steps : List (StepRecord × Spent))
    → NotIn s.step_id steps
    → AllSilent cs steps
    → AllSilent (cs ++ map (command_row s.step_id) s.commands) steps
AllSilent-more cs s [] other h = tt
AllSilent-more cs s ((t, y) ∷ rest) (apart, others) (now, later) = (
  commands_of-mixed cs s.step_id s.commands t.step_id apart ∙ now,
  AllSilent-more cs s rest others later,
)

step_infos :
    (run_id : Text) (rows : List StepRow) (cs : List CommandRow) (steps : List (StepRecord × Spent))
    → AllFresh rows steps
    → AllSilent cs steps
    → map (step_info (cs ++ command_rows steps)) (rows_of run_id steps) ≡ map (logged run_id) steps
step_infos run_id rows cs [] fresh silent = refl
step_infos run_id rows cs ((s, x) ∷ rest) (new, apart, more) (now, later) =
    ap
      (λ l.
        record (step_info [] (step_row run_id s x)) { commands = l }
        ∷ map (step_info all) (rows_of run_id rest))
      (commands_of-own cs s rest now apart)
    ∙ ap (λ l. logged run_id (s, x) ∷ l)
        (ap (λ ds. map (step_info ds) (rows_of run_id rest))
            (sym (append_assoc cs (map (command_row s.step_id) s.commands) (command_rows rest)))
          ∙ step_infos run_id rows (cs ++ map (command_row s.step_id) s.commands) rest more
              (AllSilent-more cs s rest apart later))
  where
    all : List CommandRow
    all = cs ++ command_rows ((s, x) ∷ rest)

-- For a run without rows in the table of steps, and steps inserted for it one after the other under step
-- ids that are new, differ from each other and have no rows in the table of commands, with indexes
-- that do not fall: get_steps gives those steps back in that order, each with its own commands
-- in the order that they were in.
pub get_steps-insert_steps :
    (db : Db) (run_id : Text) (steps : List (StepRecord × Spent))
    → All (λ r. text_eq r.run_id run_id ≡ false) db.steps
    → AllFresh db.steps steps
    → AllSilent db.commands steps
    → InOrder steps
    → get_steps (insert_steps db run_id steps) run_id ≡ map (logged run_id) steps
unfolding get_steps
get_steps-insert_steps db run_id steps unused fresh silent ordered =
    ap (λ d. get_steps d run_id) (insert_steps-tables db run_id steps fresh)
    ∙ ap (λ rows. map (step_info (db.commands ++ command_rows steps)) (by_index rows))
        (steps_of-append run_id db.steps (rows_of run_id steps) unused
          ∙ steps_of-rows_of run_id steps)
    ∙ ap (map (step_info (db.commands ++ command_rows steps)))
        (by_index-rows_of run_id steps ordered)
    ∙ step_infos run_id db.steps db.commands steps fresh silent
