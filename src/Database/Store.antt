-- ===== src/Database/Store.antt =====
-- db.py: the tables of a run as maps from keys, over any sequence of the statements that write them.
pub mod Performed
use mathlib.Core.Path.{fun_ext}
use termiclaw.Prelude.{
  Text, text_eq, text_eq→eq, text_eq_refl, List, [], ◌∷◌, ◌++◌, append-nil, map, Option, none, some,
  Bool, true, false, ◌&&◌, append_assoc, ◌≡◌, refl, sym, ap, subst, ◌∙◌, All, inl, inr, Bool-cases,
  if◌then◌else◌,
}
use termiclaw.Errors.{Raises, returns, raises, Raises-cases, integrity_error}
use termiclaw.Model.{StepRecord, ParsedCommand}
use termiclaw.State.{State}
use termiclaw.Database.{
  Db, RunRow, StepRow, CommandRow, Ending, Spent, run_row, step_row, command_row, ended_row,
  updated_rows, insert_run, update_run, stored_step,
}
use termiclaw.Database.Bind.{
  bind, run_params, ended_params, step_params, is_nan, has_run, insertable, insert_commands,
  execute_insert_run, execute_update_run, insert_step,
}
use termiclaw.Database.Keyed.{row_at, IsKeyed, replaced-row_at, replaced-IsKeyed}

-- The calls that write.
pub data Statement : Type 0 where
  inserting : State → Statement
  updating : State → Ending → Statement
  logging : (run_id : Text) → StepRecord → Spent → Statement

abbrev pub execute : Db → Statement → Raises (Unit {0}) × Db
execute db (inserting state) = execute_insert_run db state
execute db (updating state e) = execute_update_run db state e
execute db (logging run_id step x) = insert_step db run_id step x

-- One after the other, also after one that raised, and what each came to.
abbrev pub execute_all : Db → List Statement → List (Raises (Unit {0})) × Db
execute_all db [] = ([], db)
execute_all db (st ∷ sts) =
    let rest = execute_all (execute db st).1 sts in ((execute db st).0 ∷ rest.0, rest.1)

-- What the tables stand for: the run and the step of an id, and the commands of a step.
pub record Store : Type 0 where
  pub run : Text → Option RunRow
  pub step : Text → Option StepRow
  pub commands : Text → List ParsedCommand

abbrev pub changed_at : {A : Type 0} → Text → (A → A) → (Text → A) → Text → A
changed_at id f old other = if text_eq id other then f (old other) else old other

abbrev pub ended_option : State → Ending → Option RunRow → Option RunRow
ended_option state e none = none
ended_option state e (some r) = some (ended_row state e r)

-- The commands before the first that raises, and what their loop comes to.
abbrev pub accepted : Text → List ParsedCommand → Raises (Unit {0}) × List ParsedCommand
accepted step_id [] = (returns tt, [])
accepted step_id (cmd ∷ cmds) = elim (insertable step_id cmd) [
  | raises x ↦ (raises x, [])
  | returns _ ↦ ((accepted step_id cmds).0, cmd ∷ (accepted step_id cmds).1)
]

abbrev pub is_some : {A : Type 0} → Option A → Bool
is_some none = false
is_some (some a) = true

-- A statement on the store, where nothing raises.
abbrev pub effect : Store → Statement → Store
effect s (inserting state) = record s {
  run = changed_at state.run_id (λ old. some (run_row state)) s.run;
}
effect s (updating state e) = record s {
  run = changed_at state.run_id (ended_option state e) s.run;
}
effect s (logging run_id step x) = record s {
  step = changed_at step.step_id (λ old. some (step_row run_id step x)) s.step;
  commands = changed_at step.step_id (λ old. old ++ step.commands) s.commands;
}

abbrev pub unless_raised :
    Raises (Unit {0}) → Store → Raises (Unit {0}) × Store → Raises (Unit {0}) × Store
unless_raised (raises x) s done = (raises x, s)
unless_raised (returns _) s done = done

-- A statement on the store: what cannot be bound changes nothing, nor does a NaN cost of a run that
-- is there; and of a step the commands are added that come before the first that is refused.
abbrev pub perform : Store → Statement → Raises (Unit {0}) × Store
perform s (inserting state) =
    unless_raised (bind (run_params state)) s (returns tt, effect s (inserting state))
perform s (updating state e) = unless_raised (bind (ended_params state e)) s (
    if is_nan e.total_cost_usd && is_some (s.run state.run_id)
    then (raises integrity_error, s)
    else (returns tt, effect s (updating state e)))
perform s (logging run_id step x) =
    let taken = accepted step.step_id step.commands in
    unless_raised (bind (step_params run_id step x)) s
      (taken.0, effect s (logging run_id (record step { commands = taken.1 }) x))

abbrev pub perform_all : Store → List Statement → List (Raises (Unit {0})) × Store
perform_all s [] = ([], s)
perform_all s (st ∷ sts) =
    let rest = perform_all (perform s st).1 sts in ((perform s st).0 ∷ rest.0, rest.1)

abbrev pub commands_of : List CommandRow → Text → List ParsedCommand
commands_of [] id = []
commands_of (c ∷ cs) id =
    let rest = commands_of cs id in
    if text_eq c.step_id id
    then record { keystrokes = c.keystrokes; duration = c.duration } ∷ rest
    else rest

abbrev pub view : Db → Store
view db = record {
  run = row_at (λ r. r.run_id) db.runs;
  step = row_at (λ r. r.step_id) db.steps;
  commands = commands_of db.commands;
}

abbrev pub IsKeyedDb : Db → Type 0
IsKeyedDb db = IsKeyed (λ r. r.run_id) db.runs × IsKeyed (λ r. r.step_id) db.steps

updated-run_id :
    (state : State) (e : Ending) (r : RunRow)
    → (if text_eq r.run_id state.run_id then ended_row state e r else r).run_id ≡ r.run_id
updated-run_id state e r = elim (Bool-cases (text_eq r.run_id state.run_id)) [
  | inl own ↦ rw own refl
  | inr left ↦ rw left refl
]

pub text_eq_sym : (a b : Text) → text_eq a b ≡ text_eq b a
text_eq_sym a b = elim (Bool-cases (text_eq a b)) [
  | inl alike ↦ alike ∙ sym (ap (λ k. text_eq k a) (sym (text_eq→eq a b alike)) ∙ text_eq_refl a)
  | inr apart ↦ elim (Bool-cases (text_eq b a)) [
    | inl back ↦ absurd (cc (sym apart, ap (text_eq a) (text_eq→eq b a back), text_eq_refl a))
    | inr fine ↦ apart ∙ sym fine
  ]
]

pub updated_rows-row_at :
    (state : State) (e : Ending) (rows : List RunRow) (id : Text)
    → row_at (λ r. r.run_id) (updated_rows state e rows) id
      ≡ changed_at state.run_id (ended_option state e) (row_at (λ r. r.run_id) rows) id
updated_rows-row_at state e [] id = elim (Bool-cases (text_eq state.run_id id)) [
  | inl same ↦ rw same refl
  | inr apart ↦ rw apart refl
]
updated_rows-row_at state e (r ∷ rs) id = elim (Bool-cases (text_eq r.run_id state.run_id)) [
  | inl own ↦
      let same : text_eq state.run_id id ≡ text_eq r.run_id id =
        ap (λ k. text_eq k id) (sym (text_eq→eq r.run_id state.run_id own)) in
      elim (Bool-cases (text_eq r.run_id id)) [
        | inl found ↦ rw (own, same, found) refl
        | inr other ↦
            rw (own, same, other) (updated_rows-row_at state e rs id ∙ rw (same, other) refl)
      ]
  | inr left ↦ elim (Bool-cases (text_eq r.run_id id)) [
    | inl found ↦
        let apart : text_eq state.run_id id ≡ false =
          text_eq_sym state.run_id id
          ∙ ap (λ k. text_eq k state.run_id) (sym (text_eq→eq r.run_id id found))
          ∙ left in
        rw (left, found, apart) refl
    | inr other ↦ rw (left, other) (updated_rows-row_at state e rs id)
  ]
]

pub updated_rows-IsKeyed :
    (state : State) (e : Ending) (rows : List RunRow)
    → IsKeyed (λ r. r.run_id) rows
    → IsKeyed (λ r. r.run_id) (updated_rows state e rows)
updated_rows-IsKeyed state e [] h = tt
updated_rows-IsKeyed state e (r ∷ rs) (now, later) = (
  subst (λ k. All (λ q. text_eq k q.run_id ≡ false) (updated_rows state e rs))
      (sym (updated-run_id state e r)) (All-updated r.run_id rs now),
  updated_rows-IsKeyed state e rs later,
)
  where
    All-updated :
        (k : Text) (qs : List RunRow)
        → All (λ q. text_eq k q.run_id ≡ false) qs
        → All (λ q. text_eq k q.run_id ≡ false) (updated_rows state e qs)
    All-updated k [] h = tt
    All-updated k (q ∷ qs) (now, later) =
        (ap (text_eq k) (updated-run_id state e q) ∙ now, All-updated k qs later)

pub commands_of-append :
    (cs ds : List CommandRow) (id : Text)
    → commands_of (cs ++ ds) id ≡ commands_of cs id ++ commands_of ds id
commands_of-append [] ds id = refl
commands_of-append (c ∷ cs) ds id = elim (Bool-cases (text_eq c.step_id id)) [
  | inl own ↦ rw own (
      ap (λ l. record { keystrokes = c.keystrokes; duration = c.duration } ∷ l)
        (commands_of-append cs ds id))
  | inr other ↦ rw other (commands_of-append cs ds id)
]

pub commands_of-step :
    (step_id : Text) (cmds : List ParsedCommand) (id : Text)
    → commands_of (map (command_row step_id) cmds) id ≡ (if text_eq step_id id then cmds else [])
commands_of-step step_id [] id = elim (Bool-cases (text_eq step_id id)) [
  | inl own ↦ rw own refl
  | inr other ↦ rw other refl
]
commands_of-step step_id (c ∷ cs) id = elim (Bool-cases (text_eq step_id id)) [
  | inl own ↦ rw own (ap (λ l. c ∷ l) (commands_of-step step_id cs id ∙ rw own refl))
  | inr other ↦ rw other (commands_of-step step_id cs id ∙ rw other refl)
]

pub commands_of-logged :
    (step_id : Text) (cmds : List ParsedCommand) (rows : List CommandRow) (id : Text)
    → commands_of (rows ++ map (command_row step_id) cmds) id
      ≡ changed_at step_id (λ old. old ++ cmds) (commands_of rows) id
commands_of-logged step_id cmds rows id =
    commands_of-append rows (map (command_row step_id) cmds) id
    ∙ ap (λ l. commands_of rows id ++ l) (commands_of-step step_id cmds id)
    ∙ elim (Bool-cases (text_eq step_id id)) [
      | inl own ↦ rw own refl
      | inr other ↦ rw other (append-nil (commands_of rows id))
    ]
