-- ===== src/Database/Store/Performed.antt =====
-- db.py: any sequence of the statements that write, on the tables and on the maps.
use mathlib.Core.Path.{fun_ext}
use termiclaw.Prelude.{
  Text, text_eq, List, [], ◌∷◌, ◌++◌, append-nil, map, Option, none, some, ◌&&◌, append_assoc, ◌≡◌,
  refl, sym, ap, subst, ◌∙◌, inl, inr, Bool-cases,
}
use termiclaw.Errors.{Raises, returns, raises, Raises-cases, integrity_error}
use termiclaw.Model.{ParsedCommand}
use termiclaw.State.{State}
use termiclaw.Database.{
  Db, RunRow, Ending, run_row, step_row, command_row, insert_run, update_run, stored_step,
}
use termiclaw.Database.Bind.{
  bind, run_params, ended_params, step_params, is_nan, has_run, insertable, insert_commands,
  execute_insert_run, execute_update_run, insert_step,
}
use termiclaw.Database.Keyed.{row_at, replaced-row_at, replaced-IsKeyed}
use termiclaw.Database.Store.{
  Statement, inserting, updating, logging, execute, execute_all, Store, accepted, is_some, effect,
  perform, perform_all, view, IsKeyedDb, updated_rows-row_at, updated_rows-IsKeyed,
  commands_of-logged,
}

-- The tables after a statement that does not raise.
abbrev effected : Db → Statement → Db
effected db (inserting state) = insert_run db state
effected db (updating state e) = update_run db state e
effected db (logging run_id step x) = stored_step db run_id step x

effected-effect : (db : Db) (st : Statement) → view (effected db st) ≡ effect (view db) st
unfolding insert_run update_run stored_step
effected-effect db (inserting state) =
    ap (λ f. record (view db) { run = f })
      (fun_ext (replaced-row_at (λ r. r.run_id) (run_row state) db.runs))
effected-effect db (updating state e) =
    ap (λ f. record (view db) { run = f }) (fun_ext (updated_rows-row_at state e db.runs))
effected-effect db (logging run_id step x) =
    ap (λ f. record (view (stored_step db run_id step x)) { step = f })
      (fun_ext (replaced-row_at (λ r. r.step_id) (step_row run_id step x) db.steps))
    ∙ ap (λ f. record (effect (view db) (logging run_id step x)) { commands = f })
        (fun_ext (commands_of-logged step.step_id step.commands db.commands))

effected-IsKeyedDb : (db : Db) (st : Statement) → IsKeyedDb db → IsKeyedDb (effected db st)
unfolding insert_run update_run stored_step
effected-IsKeyedDb db (inserting state) (runs, steps) =
    (replaced-IsKeyed (λ r. r.run_id) (run_row state) db.runs runs, steps)
effected-IsKeyedDb db (updating state e) (runs, steps) =
    (updated_rows-IsKeyed state e db.runs runs, steps)
effected-IsKeyedDb db (logging run_id step x) (runs, steps) =
    (runs, replaced-IsKeyed (λ r. r.step_id) (step_row run_id step x) db.steps steps)

pub insert_commands-accepted :
    (step_id : Text) (cmds : List ParsedCommand) (db : Db)
    → insert_commands step_id cmds db ≡ (
      (accepted step_id cmds).0,
      record db { commands = db.commands ++ map (command_row step_id) (accepted step_id cmds).1 },
    )
insert_commands-accepted step_id [] db =
    ap (λ cs. (returns tt, record db { commands = cs })) (sym (append-nil db.commands))
insert_commands-accepted step_id (cmd ∷ cmds) db = elim (Raises-cases (insertable step_id cmd)) [
  | inr (x, refused) ↦
      rw (insert_commands, accepted, refused)
        (ap (λ cs. (raises x, record db { commands = cs })) (sym (append-nil db.commands)))
  | inl (_, fine) ↦
      let row = command_row step_id cmd in
      rw (insert_commands, accepted, fine)
        (insert_commands-accepted step_id cmds (record db { commands = db.commands ++ row ∷ [] })
          ∙ ap (λ cs. ((accepted step_id cmds).0, record db { commands = cs }))
              (append_assoc db.commands (row ∷ [])
                (map (command_row step_id) (accepted step_id cmds).1)))
]

has_run-row_at :
    (id : Text) (rows : List RunRow)
    → has_run id rows ≡ is_some (row_at (λ (r : RunRow). r.run_id) rows id)
has_run-row_at id [] = refl
has_run-row_at id (r ∷ rs) = elim (Bool-cases (text_eq r.run_id id)) [
  | inl own ↦ rw own refl
  | inr other ↦ rw other (has_run-row_at id rs)
]

-- The statement that took effect, if one did.
abbrev effected_by : Db → Option Statement → Db
effected_by db none = db
effected_by db (some st) = effected db st

abbrev effect_of : Store → Option Statement → Store
effect_of s none = s
effect_of s (some st) = effect s st

-- One statement, on the tables and on the store: what it comes to, and what took effect.
abbrev Took : Db → Statement → Type 0
Took db st =
    (r : Raises (Unit {0})) × (o : Option Statement) × (execute db st ≡ (r, effected_by db o))
    × (perform (view db) st ≡ (r, effect_of (view db) o))

update-Took : (db : Db) (state : State) (e : Ending) → Took db (updating state e)
unfolding execute_update_run
update-Took db state e = elim (Raises-cases (bind (ended_params state e))) [
  | inr (x, refused) ↦ (raises x, none, rw (execute_update_run, refused) refl, rw refused refl)
  | inl (_, bound) ↦
      let found = has_run-row_at state.run_id db.runs in
      elim (Bool-cases (is_nan e.total_cost_usd && has_run state.run_id db.runs)) [
        | inl nulled ↦
            let seen = ap (λ b. is_nan e.total_cost_usd && b) (sym found) ∙ nulled in
            (
              raises integrity_error,
              none,
              rw (execute_update_run, bound, nulled) refl,
              rw (bound, seen) refl,
            )
        | inr real ↦
            let seen = ap (λ b. is_nan e.total_cost_usd && b) (sym found) ∙ real in
            (
              returns tt,
              some (updating state e),
              rw (execute_update_run, bound, real) refl,
              rw (bound, seen) refl,
            )
      ]
]

statement-Took : (db : Db) (st : Statement) → Took db st
unfolding execute_insert_run insert_step stored_step
statement-Took db (inserting state) = elim (Raises-cases (bind (run_params state))) [
  | inr (x, refused) ↦ (raises x, none, rw (execute_insert_run, refused) refl, rw refused refl)
  | inl (_, bound) ↦
      (returns tt, some (inserting state), rw (execute_insert_run, bound) refl, rw bound refl)
]
statement-Took db (updating state e) = update-Took db state e
statement-Took db (logging run_id step x) =
    let taken = accepted step.step_id step.commands in
    elim (Raises-cases (bind (step_params run_id step x))) [
      | inr (y, refused) ↦ (raises y, none, rw (insert_step, refused) refl, rw refused refl)
      | inl (_, bound) ↦ (
        taken.0,
        some (logging run_id (record step { commands = taken.1 }) x),
        rw (insert_step, bound) (insert_commands-accepted step.step_id step.commands _),
        rw bound refl,
      )
    ]

execute-perform :
    (db : Db) (st : Statement) → perform (view db) st ≡ ((execute db st).0, view (execute db st).1)
execute-perform db st =
    let (r, o, ran, done) = statement-Took db st in
    done
    ∙ ap (λ s. (r, s)) (view-effected o)
    ∙ sym (ap (λ (p : Raises (Unit {0}) × Db). (p.0, view p.1)) ran)
  where
    view-effected : (o : Option Statement) → effect_of (view db) o ≡ view (effected_by db o)
    view-effected none = refl
    view-effected (some t) = sym (effected-effect db t)

execute-IsKeyedDb : (db : Db) (st : Statement) → IsKeyedDb db → IsKeyedDb (execute db st).1
execute-IsKeyedDb db st h =
    let (r, o, ran, done) = statement-Took db st in
    subst (λ (p : Raises (Unit {0}) × Db). IsKeyedDb p.1) (sym ran) (effected_by-IsKeyedDb o)
  where
    effected_by-IsKeyedDb : (o : Option Statement) → IsKeyedDb (effected_by db o)
    effected_by-IsKeyedDb none = h
    effected_by-IsKeyedDb (some t) = effected-IsKeyedDb db t h

-- Any sequence of insert_run, update_run and insert_step calls on tables where each primary key
-- has one row at most leaves such tables, and each call comes to what it comes to on a map from
-- ids to rows and commands, which it changes at its own id alone. insert_run sets a run,
-- update_run changes the run when there is one, insert_step sets a step and adds to the commands
-- of that step. A call whose parameters cannot be bound raises and changes nothing, and so does
-- an update of a run that is there with a NaN cost; at the first command that is refused
-- insert_step raises, with the step and the commands before it added.
pub execute_all-perform_all :
    (db : Db) (sts : List Statement)
    → IsKeyedDb db
    → (perform_all (view db) sts ≡ ((execute_all db sts).0, view (execute_all db sts).1))
      × IsKeyedDb (execute_all db sts).1
execute_all-perform_all db [] h = (refl, h)
execute_all-perform_all db (st ∷ sts) h =
    let rest = execute_all-perform_all (execute db st).1 sts (execute-IsKeyedDb db st h) in
    (
      ap (λ p. (p.0 ∷ (perform_all p.1 sts).0, (perform_all p.1 sts).1)) (execute-perform db st)
          ∙ ap (λ q. ((execute db st).0 ∷ q.0, q.1)) rest.0,
      rest.1,
    )
