-- ===== src/Tests/DatabaseTests.antt =====
-- Rows written and read.
use termiclaw.Prelude.{ℤ, pos, Text, codes, decimal, List, [], ◌∷◌, some, ◌≡◌, refl}
use termiclaw.Float.{finite}
use termiclaw.Errors.{Raises, returns}
use termiclaw.Trajectory.Runs.{format_duration}
use termiclaw.Database.{Db, Spent, Ending, insert_run, update_run}
use termiclaw.Database.Query.{get_run}
use termiclaw.Database.Runs.{ended_info, get_run-update_run}
use termiclaw.Database.Store.{
  Statement, inserting, updating, logging, execute_all, perform_all, view, IsKeyedDb,
}
use termiclaw.Database.Store.Performed.{execute_all-perform_all}
use termiclaw.Database.Schema.{File}
use termiclaw.Tests.Fixtures.{start, done_step}

abbrev pub empty : Db
empty = record { runs = []; steps = []; commands = [] }

abbrev pub with_other : Db
with_other = insert_run empty (record start { run_id = codes "other" })

abbrev ending : Ending
ending = record {
  finished_at = codes "2026-01-02";
  termination_reason = codes "max_turns";
  total_prompt_tokens = pos 7;
  total_input_tokens = pos 5;
  total_output_tokens = pos 2;
  total_cost_usd = finite (pos 0);
}

abbrev pub a_minute : Text → Text → Raises ℤ
a_minute a b = returns (pos 61)

get_run-update_run_example :
    get_run a_minute
      (update_run (insert_run with_other start) (record start { current_step = 3 }) ending)
      (codes "run")
    ≡ returns (some (ended_info start (record start { current_step = 3 }) ending (codes "1m 1s")))
unfolding insert_run format_duration decimal
get_run-update_run_example =
    get_run-update_run a_minute with_other start (record start { current_step = 3 }) ending
      (codes "1m 1s") (refl, tt) refl refl

abbrev spent : Spent
spent = record {
  step_index = 0;
  input_tokens = pos 5;
  output_tokens = pos 2;
  cost_usd = finite (pos 0);
  planner_duration_ms = pos 9;
}

abbrev statements : List Statement
statements =
    inserting start
    ∷ logging (codes "run") done_step spent
    ∷ updating (record start { current_step = 3 }) ending
    ∷ inserting (record start { run_id = codes "third" })
    ∷ []

execute_all-perform_all_example :
    (perform_all (view with_other) statements
      ≡ ((execute_all with_other statements).0, view (execute_all with_other statements).1))
    × IsKeyedDb (execute_all with_other statements).1
unfolding insert_run
execute_all-perform_all_example = execute_all-perform_all with_other statements ((tt, tt), tt)

-- A file of an older version, without most columns.
abbrev older : File
older = record { tables = (codes "runs", codes "run_id" ∷ codes "status" ∷ []) ∷ []; indexes = [] }
