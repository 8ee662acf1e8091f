-- ===== src/Database/Usage.antt =====
-- db.py: the tokens of a run, summed over the steps that were inserted.
use termiclaw.Prelude.{
  ℤ, ◌+ℤ◌, int_laws, Text, text_eq, text_eq_refl, List, [], ◌∷◌, ◌++◌, true, false, ◌≡◌, refl, ap,
  ◌∙◌, All, inl, inr, Bool-cases,
}
use termiclaw.Model.{StepRecord}
use termiclaw.Database.{Db, StepRow, Spent, without, step_row, stored_step}
use termiclaw.Database.Query.{sum_of, aggregate_usage}

-- The steps of a run inserted one after the other.
abbrev pub insert_steps : Db → Text → List (StepRecord × Spent) → Db
insert_steps db run_id [] = db
insert_steps db run_id ((s, x) ∷ rest) = insert_steps (stored_step db run_id s x) run_id rest

-- A step id that no row has.
abbrev pub IsNew : Text → List StepRow → Type 0
IsNew id rows = All (λ r. text_eq r.step_id id ≡ false) rows

abbrev pub AllNew : Db → Text → List (StepRecord × Spent) → Type 0
AllNew db run_id [] = Unit {0}
AllNew db run_id ((s, x) ∷ rest) =
    IsNew s.step_id db.steps × AllNew (stored_step db run_id s x) run_id rest

-- The sums of the steps themselves, after what was there.
abbrev pub input_total : ℤ → List (StepRecord × Spent) → ℤ
input_total before [] = before
input_total before ((s, x) ∷ rest) = input_total (before +ℤ x.input_tokens) rest

abbrev pub output_total : ℤ → List (StepRecord × Spent) → ℤ
output_total before [] = before
output_total before ((s, x) ∷ rest) = output_total (before +ℤ x.output_tokens) rest

pub without-IsNew :
    (id : Text) (rows : List StepRow) → IsNew id rows → without (λ r. r.step_id) id rows ≡ rows
without-IsNew id [] h = refl
without-IsNew id (r ∷ rs) (now, later) = rw now (ap (λ l. r ∷ l) (without-IsNew id rs later))

sum_of-append :
    (column : StepRow → ℤ) (run_id : Text) (rows : List StepRow) (r : StepRow)
    → text_eq r.run_id run_id ≡ true
    → sum_of column run_id (rows ++ r ∷ []) ≡ sum_of column run_id rows +ℤ column r
sum_of-append column run_id [] r own = rw own (omega int_laws)
sum_of-append column run_id (q ∷ qs) r own = elim (Bool-cases (text_eq q.run_id run_id)) [
  | inr other ↦ rw other (sum_of-append column run_id qs r own)
  | inl same ↦ rw (same, sum_of-append column run_id qs r own) (omega int_laws)
]

sum_of-stored_step :
    (column : StepRow → ℤ) (db : Db) (run_id : Text) (s : StepRecord) (x : Spent)
    → IsNew s.step_id db.steps
    → sum_of column run_id (stored_step db run_id s x).steps
      ≡ sum_of column run_id db.steps +ℤ column (step_row run_id s x)
unfolding stored_step
sum_of-stored_step column db run_id s x new =
    ap (λ rows. sum_of column run_id (rows ++ step_row run_id s x ∷ []))
      (without-IsNew s.step_id db.steps new)
    ∙ sum_of-append column run_id db.steps (step_row run_id s x) (text_eq_refl run_id)

-- For steps that are inserted for a run one after the other, each under a step id that no row
-- has: the aggregated token counts of the run are those of before with the tokens of each step
-- added.
pub aggregate_usage-insert_steps :
    (db : Db) (run_id : Text) (steps : List (StepRecord × Spent))
    → AllNew db run_id steps
    → aggregate_usage (insert_steps db run_id steps) run_id ≡ (
      input_total (aggregate_usage db run_id).0 steps,
      output_total (aggregate_usage db run_id).1 steps,
    )
unfolding aggregate_usage
aggregate_usage-insert_steps db run_id [] new = refl
aggregate_usage-insert_steps db run_id ((s, x) ∷ rest) (now, later) =
    aggregate_usage-insert_steps (stored_step db run_id s x) run_id rest later
    ∙ ap
        (λ i. (
          input_total i rest,
          output_total (sum_of (λ r. r.output_tokens) run_id (stored_step db run_id s x).steps)
              rest,
        ))
        (sum_of-stored_step (λ r. r.input_tokens) db run_id s x now)
    ∙ ap
        (λ o. (
          input_total (sum_of (λ r. r.input_tokens) run_id db.steps +ℤ x.input_tokens) rest,
          output_total o rest,
        ))
        (sum_of-stored_step (λ r. r.output_tokens) db run_id s x now)
