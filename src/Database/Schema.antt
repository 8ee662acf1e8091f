-- ===== src/Database/Schema.antt =====
-- db.py: the tables, columns and indexes that init_db leaves, whatever file it is called on. SQLite
-- compares names without regard to case: they stand here in lower case. The types of columns are
-- left out.
pub mod Settled
pub mod Indexed
use termiclaw.Prelude.{
  Text, codes, text_eq, one_of, List, [], ◌∷◌, ◌++◌, Bool, true, false, ◌||◌, if◌then◌else◌,
}
use termiclaw.Errors.{Raises, returns, raises, operational_error}

-- The tables of a file, each with its columns.
abbrev pub Tables : Type 0
Tables = List (Text × List Text)

-- A statement of `_SCHEMA` or `_MIGRATIONS`.
pub data Ddl : Type 0 where
  create_table : (name : Text) (columns : List Text) → Ddl
  add_column : (table column : Text) → Ddl

abbrev pub has_table : Text → Tables → Bool
has_table name [] = false
has_table name (t ∷ ts) = text_eq name t.0 || has_table name ts

-- `ALTER TABLE`; an error is suppressed, and leaves the table as it is.
abbrev pub altered : Text → Text → Tables → Tables
altered table column [] = []
altered table column (t ∷ ts) =
    let rest = altered table column ts in
    if text_eq table t.0
    then (if one_of column t.1 then t ∷ ts else (t.0, t.1 ++ column ∷ []) ∷ ts)
    else t ∷ rest

abbrev pub run_ddl : Tables → Ddl → Tables
run_ddl ts (create_table name columns) =
    if has_table name ts then ts else ts ++ (name, columns) ∷ []
run_ddl ts (add_column table column) = altered table column ts

abbrev pub run_script : Tables → List Ddl → Tables
run_script ts [] = ts
run_script ts (d ∷ ds) = run_script (run_ddl ts d) ds

abbrev pub schema : List Ddl
schema =
    create_table (codes "runs") (
      codes "run_id"
      ∷ codes "instruction"
      ∷ codes "status"
      ∷ codes "started_at"
      ∷ codes "finished_at"
      ∷ codes "tmux_session"
      ∷ codes "termination_reason"
      ∷ codes "total_steps"
      ∷ codes "total_prompt_tokens"
      ∷ codes "total_input_tokens"
      ∷ codes "total_output_tokens"
      ∷ codes "total_cost_usd"
      ∷ codes "total_nudges"
      ∷ codes "total_forced_interrupts"
      ∷ codes "parent_run_id"
      ∷ codes "forked_at_step"
      ∷ codes "claude_session_id"
      ∷ codes "container_id"
      ∷ [])
    ∷ create_table (codes "steps") (
        codes "step_id"
        ∷ codes "run_id"
        ∷ codes "step_index"
        ∷ codes "timestamp"
        ∷ codes "source"
        ∷ codes "analysis"
        ∷ codes "observation"
        ∷ codes "error"
        ∷ codes "task_complete"
        ∷ codes "prompt_tokens"
        ∷ codes "input_tokens"
        ∷ codes "output_tokens"
        ∷ codes "cost_usd"
        ∷ codes "planner_duration_ms"
        ∷ codes "is_copied_context"
        ∷ [])
    ∷ create_table (codes "commands")
        (codes "id" ∷ codes "step_id" ∷ codes "keystrokes" ∷ codes "duration" ∷ [])
    ∷ []

abbrev pub migrations : List Ddl
migrations =
    add_column (codes "runs") (codes "total_prompt_tokens")
    ∷ add_column (codes "steps") (codes "prompt_tokens")
    ∷ add_column (codes "runs") (codes "total_nudges")
    ∷ add_column (codes "runs") (codes "total_forced_interrupts")
    ∷ add_column (codes "runs") (codes "parent_run_id")
    ∷ add_column (codes "runs") (codes "forked_at_step")
    ∷ add_column (codes "runs") (codes "claude_session_id")
    ∷ add_column (codes "steps") (codes "claude_session_id")
    ∷ add_column (codes "runs") (codes "container_id")
    ∷ add_column (codes "runs") (codes "mcts_search_id")
    ∷ create_table (codes "mcts_searches") (
        codes "search_id"
        ∷ codes "task_file"
        ∷ codes "started_at"
        ∷ codes "finished_at"
        ∷ codes "total_playouts"
        ∷ codes "best_run_id"
        ∷ codes "best_reward"
        ∷ [])
    ∷ create_table (codes "mcts_nodes") (
        codes "node_id"
        ∷ codes "search_id"
        ∷ codes "parent_node_id"
        ∷ codes "run_id"
        ∷ codes "step_index"
        ∷ codes "variant"
        ∷ codes "visits"
        ∷ codes "total_reward"
        ∷ codes "best_reward"
        ∷ codes "best_leaf_run_id"
        ∷ [])
    ∷ create_table (codes "failure_tags") (
        codes "id"
        ∷ codes "run_id"
        ∷ codes "step_index"
        ∷ codes "category"
        ∷ codes "note"
        ∷ codes "tagged_at"
        ∷ [])
    ∷ []

-- A file: its tables, and the names of its indexes.
pub record File : Type 0 where
  pub tables : Tables
  pub indexes : List Text

-- The first table of the name has the column.
abbrev pub column_there : Text → Text → Tables → Bool
column_there table column [] = false
column_there table column (t ∷ ts) =
    let rest = column_there table column ts in if text_eq table t.0 then one_of column t.1 else rest

-- The CREATE INDEX statements of `_SCHEMA`: a name, a table and a column.
abbrev pub indexes : List (Text × Text × Text)
indexes =
    (codes "idx_steps_run_id", codes "steps", codes "run_id")
    ∷ (codes "idx_commands_step_id", codes "commands", codes "step_id")
    ∷ []

-- They raise where there is neither the index nor the column.
abbrev pub create_indexes :
    Tables → List (Text × Text × Text) → List Text → Raises (Unit {0}) × List Text
create_indexes ts [] names = (returns tt, names)
create_indexes ts ((name, table, column) ∷ rest) names =
    if one_of name names
    then create_indexes ts rest names
    else if column_there table column ts
    then create_indexes ts rest (names ++ name ∷ [])
    else (raises operational_error, names)

-- `_SCHEMA` raises what its statements raise, and only the migrations are suppressed.
abbrev pub migrated : Tables → Raises (Unit {0}) × List Text → Raises (Unit {0}) × File
migrated ts (raises x, names) = (raises x, record { tables = ts; indexes = names })
migrated ts (returns _, names) =
    (returns tt, record { tables = run_script ts migrations; indexes = names })

unfoldable pub init_db : File → Raises (Unit {0}) × File
init_db f =
    let made = run_script f.tables schema in migrated made (create_indexes made indexes f.indexes)
