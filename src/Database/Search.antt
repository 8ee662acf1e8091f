-- ===== src/Database/Search.antt =====
-- db.py: the tables of the tree search and of failure tags. A statement on them that raises is not
-- modelled.
use termiclaw.Prelude.{ℕ, Text, text_eq, List, [], ◌∷◌, ◌++◌, Option, none, some, if◌then◌else◌}
use termiclaw.Float.{Float}
use termiclaw.Mcts.Playout.{NodeRow}
use termiclaw.Database.{replaced}

-- A row of `mcts_searches`; the last three columns are NULL until the search has finished.
pub record SearchRow : Type 0 where
  pub search_id : Text
  pub task_file : Text
  pub started_at : Text
  pub finished_at : Option Text
  pub total_playouts : ℕ
  pub best_run_id : Option Text
  pub best_reward : Option Float

pub record TagRow : Type 0 where
  pub run_id : Text
  pub step_index : Option ℕ
  pub category : Text
  pub note : Option Text
  pub tagged_at : Text

unfoldable insert_mcts_search : List SearchRow → Text → Text → Text → List SearchRow
insert_mcts_search rows search_id task_file started_at =
    rows
    ++ record {
      search_id = search_id;
      task_file = task_file;
      started_at = started_at;
      finished_at = none;
      total_playouts = 0;
      best_run_id = none;
      best_reward = none;
    }
      ∷ []

unfoldable finish_mcts_search : List SearchRow → Text → Text → ℕ → Text → Float → List SearchRow
finish_mcts_search [] search_id finished_at total_playouts best_run_id best_reward = []
finish_mcts_search (r ∷ rs) search_id finished_at total_playouts best_run_id best_reward =
    (if text_eq r.search_id search_id
      then record r {
        finished_at = some finished_at;
        total_playouts = total_playouts;
        best_run_id = some best_run_id;
        best_reward = some best_reward;
      }
      else r)
    ∷ finish_mcts_search rs search_id finished_at total_playouts best_run_id best_reward

unfoldable get_mcts_search : List SearchRow → Text → Option SearchRow
get_mcts_search [] search_id = none
get_mcts_search (r ∷ rs) search_id =
    let rest = get_mcts_search rs search_id in
    if text_eq r.search_id search_id then some r else rest

unfoldable upsert_mcts_node : List NodeRow → NodeRow → List NodeRow
upsert_mcts_node rows row = replaced (λ r. r.node_id) row rows

-- The row's number is left out.
unfoldable pub insert_failure_tag : List TagRow → TagRow → List TagRow
insert_failure_tag rows row = rows ++ row ∷ []
