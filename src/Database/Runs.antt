-- ===== src/Database/Runs.antt =====
-- db.py: a run that was inserted and updated, read by its id.
use termiclaw.Prelude.{
  ℕ, ℤ, pos, Text, codes, text_eq, List, [], ◌∷◌, ◌++◌, some, Bool, true, false, ◌≡◌, refl, ap, ◌∙◌,
  arith, ◌==◌, ==_iff, All, inl, inr, Bool-cases,
}
use termiclaw.Errors.{Raises, returns}
use termiclaw.Model.{RunInfo}
use termiclaw.State.{State, status_text}
use termiclaw.Trajectory.Runs.{format_duration}
use termiclaw.Database.{
  Db, RunRow, Ending, run_row, ended_row, updated_rows, without, insert_run, update_run, parent_of,
}
use termiclaw.Database.Query.{
  like, any_suffix, fold_case, matching, first_info, row_info, get_run, or_null,
}

any_suffix-here : (p : Text → Bool) (t : Text) → p t ≡ true → any_suffix p t ≡ true
any_suffix-here p [] h = h
any_suffix-here p (c ∷ t) h = rw h refl

any_suffix-later :
    (p : Text → Bool) (c : ℕ) (t : Text) → any_suffix p t ≡ true → any_suffix p (c ∷ t) ≡ true
any_suffix-later p c t h = elim (Bool-cases (p (c ∷ t))) [
  | inl here ↦ rw here refl
  | inr further ↦ rw (further, h) refl
]

-- Every text is like itself and any text after, wildcards in it or not.
like_self : (p : Text) → like (p ++ codes "%") p ≡ true
like_self [] = refl
like_self (c ∷ p) = elim (Bool-cases (c == b'%')) [
  | inl wild ↦ rw wild (
      any_suffix-later (like (p ++ codes "%")) c p
        (any_suffix-here (like (p ++ codes "%")) p (like_self p)))
  | inr plain ↦
      let same : (fold_case c == fold_case c) ≡ true =
        (==_iff (fold_case c) (fold_case c)).1 refl in
      rw (plain, same, like_self p) (ground arith)
]

-- Rows that the pattern does not match.
abbrev pub Apart : Text → List RunRow → Type 0
Apart pattern rows = All (λ r. like pattern r.run_id ≡ false) rows

matching-Apart :
    (pattern id : Text) (state : State) (e : Ending) (rows us : List RunRow)
    → Apart pattern rows
    → matching pattern (updated_rows state e (without (λ r. r.run_id) id rows ++ us))
      ≡ matching pattern (updated_rows state e us)
matching-Apart pattern id state e [] us h = refl
matching-Apart pattern id state e (r ∷ rs) us (now, later) =
    elim (Bool-cases (text_eq r.run_id id)) [
      | inl same ↦ rw same (matching-Apart pattern id state e rs us later)
      | inr other ↦ elim (Bool-cases (text_eq r.run_id state.run_id)) [
        | inl updated ↦ rw (other, updated, now) (matching-Apart pattern id state e rs us later)
        | inr left ↦ rw (other, left, now) (matching-Apart pattern id state e rs us later)
      ]
    ]

-- The information on a run that began in one state and ended in another.
abbrev pub ended_info : State → State → Ending → Text → RunInfo
ended_info began state e duration = record {
  run_id = began.run_id;
  instruction = began.instruction;
  status = status_text state.status;
  total_steps = pos state.current_step;
  started_at = began.started_at;
  finished_at = e.finished_at;
  tmux_session = began.tmux_session;
  termination_reason = e.termination_reason;
  prompt_tokens = e.total_prompt_tokens;
  duration = duration;
  input_tokens = e.total_input_tokens;
  output_tokens = e.total_output_tokens;
  cost_usd = e.total_cost_usd;
  parent_run_id = or_null (parent_of began.fork);
  claude_session_id = began.claude_session_id;
  container_id = began.container_id;
}

-- A run that is inserted into a table where no run id is like its id with any text after it, and
-- then updated from a state with the same id, is found by its id, if its times have a duration:
-- with the texts, the parent, the session and the container of the first state, the status and
-- the step count of the second, and the reason and the totals of the update.
pub get_run-update_run :
    (seconds : Text → Text → Raises ℤ) (db : Db) (began state : State) (e : Ending)
    (duration : Text)
    → Apart (began.run_id ++ codes "%") db.runs
    → text_eq began.run_id state.run_id ≡ true
    → format_duration seconds began.started_at e.finished_at ≡ returns duration
    → get_run seconds (update_run (insert_run db began) state e) began.run_id
      ≡ returns (some (ended_info began state e duration))
unfolding get_run update_run insert_run
get_run-update_run seconds db began state e duration apart same took =
    ap (first_info seconds) (
      matching-Apart (began.run_id ++ codes "%") began.run_id state e db.runs (run_row began ∷ [])
        apart)
    ∙ (ap (first_info seconds) alone ∙ read)
  where
    alone :
        matching (began.run_id ++ codes "%") (updated_rows state e (run_row began ∷ []))
        ≡ ended_row state e (run_row began) ∷ []
    alone = rw (same, like_self began.run_id) refl

    read :
        first_info seconds (ended_row state e (run_row began) ∷ [])
        ≡ returns (some (ended_info began state e duration))
    read = rw (took, first_info, row_info) refl
