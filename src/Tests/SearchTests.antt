-- ===== src/Tests/SearchTests.antt =====
-- A search with one run, and what its workers do to the tree.
use mathlib.Core.List.{foldl}
use termiclaw.Prelude.{ℕ, pos, ◌+◌, codes, List, [], ◌∷◌, none, some, ◌≡◌, refl, length}
use termiclaw.Float.{Float, finite, ticks, ltb_float, add_float}
use termiclaw.Errors.{Raises, returns}
use termiclaw.Verifier.{exited, verify, verdict, pattern_of, reward_from_result}
use termiclaw.Mcts.{
  Node, Tree, Libm, root_id, new_tree, find, select, pick_variant, record_new_node, backprop, climb,
  credit,
}
use termiclaw.Mcts.History.{
  Op, expanded, credited, apply_op, apply_ops, key_of, AllAllowed, IsRooted,
}
use termiclaw.Mcts.Rooted.{apply_op-IsRooted, new_tree-IsRooted}
use termiclaw.Mcts.Tally.{root_stats, tally, no_stats, search-tally}
use termiclaw.Mcts.Playout.{
  MctsSearch, PlayoutResult, playout, simulate, score_run, parent_state_for_fork,
  compose_instruction, replace_instruction, node_row,
}
use termiclaw.Mcts.Playout.Grows.{select-returns}
use termiclaw.Mcts.Line.{shape, line}
use termiclaw.Mcts.Playout.Sequence.{Played, search-line}
use termiclaw.Tests.Fixtures.{config, start}
use termiclaw.Tests.TaskTests.{always, checked, prints_done}

abbrev one : Float
one = finite (pos ticks)

-- Two children of the root, the second credited before the first.
abbrev two_runs : List Op
two_runs =
    expanded root_id (codes "a") []
    ∷ expanded root_id (codes "b") []
    ∷ credited (key_of (codes "b")) one
    ∷ credited (key_of (codes "a")) (finite (pos 0))
    ∷ []

two_runs_allowed : AllAllowed new_tree two_runs
unfolding record_new_node backprop climb credit
two_runs_allowed = (
  ((none, refl), refl),
  (((none, refl), refl), ((some root_id, refl), ((some root_id, refl), tt))),
)

search-tally_example :
    root_stats (apply_ops new_tree two_runs) ≡ some (foldl tally no_stats two_runs)
search-tally_example = search-tally two_runs two_runs_allowed

apply_op-IsRooted_example : IsRooted (apply_op new_tree (expanded root_id (codes "a") []))
apply_op-IsRooted_example =
    apply_op-IsRooted new_tree (expanded root_id (codes "a") []) new_tree-IsRooted
      ((none, refl), refl)

abbrev libm : Libm
libm = record { divide = λ x n. x; explore = λ c n k. finite (pos 1) }

abbrev two_tree : Tree
two_tree = apply_ops new_tree two_runs

abbrev root_after : Node
root_after = record {
  id = root_id;
  parent = none;
  variant = [];
  children = key_of (codes "a") ∷ key_of (codes "b") ∷ [];
  visits = 2;
  total_reward = add_float (add_float (finite (pos 0)) one) (finite (pos 0));
  best_reward = one;
  best_leaf_run_id = codes "b";
}

root_found : find two_tree root_id ≡ some root_after
unfolding record_new_node backprop climb credit ltb_float ticks
root_found = refl

select-returns_example :
    (r : Raises Node) × (select (length two_tree + 1) libm one two_tree root_after ≡ some r)
select-returns_example =
    select-returns libm one two_runs root_after root_id two_runs_allowed root_found

-- A search over a world of nothing, whose runs all end in the same state.
abbrev search : MctsSearch (Unit {0})
search = record {
  task = checked;
  verifier = prints_done;
  playouts = 2;
  config = config;
  variants = codes "Try again." ∷ [];
  expansion_depth = 20;
  ucb_c = one;
  search_id = codes "s";
  agent_run = λ c p w. (returns (record start { container_id = codes "c" }), w);
  search_text = always;
  run_process = λ args s w. (returns (exited (pos 0) (codes "done"), one), w);
  get_run = λ r w. (returns none, w);
  insert_search = λ i f s w. (returns tt, w);
  finish_search = λ i f n r x w. (returns tt, w);
  upsert_node = λ r w. (returns tt, w);
  libm = libm;
}

abbrev grown : Tree
grown =
    apply_ops new_tree (
      expanded root_id (codes "run") (codes "Try again.")
      ∷ credited (key_of (codes "run")) one
      ∷ [])

abbrev passed : PlayoutResult
passed = record {
  node_id = key_of (codes "run");
  leaf_run_id = codes "run";
  reward = one;
  reason = codes "pass";
}

-- The same search over a world that counts the runs, which names them.
abbrev counting : MctsSearch ℕ
counting = record {
  task = checked;
  verifier = prints_done;
  playouts = 2;
  config = config;
  variants = [];
  expansion_depth = 20;
  ucb_c = one;
  search_id = codes "s";
  agent_run =
      λ c p w. (returns (record start { run_id = w ∷ []; container_id = codes "c" }), w + 1);
  search_text = always;
  run_process = λ args s w. (returns (exited (pos 0) (codes "done"), one), w);
  get_run = λ r w. (returns none, w);
  insert_search = λ i f s w. (returns tt, w);
  finish_search = λ i f n r x w. (returns tt, w);
  upsert_node = λ r w. (returns tt, w);
  libm = libm;
}

abbrev first_tree : Tree
first_tree = apply_ops new_tree (expanded root_id (0 ∷ []) [] ∷ credited (key_of (0 ∷ [])) one ∷ [])

abbrev second_tree : Tree
second_tree =
    apply_ops first_tree
      (expanded (key_of (0 ∷ [])) (1 ∷ []) [] ∷ credited (key_of (1 ∷ [])) one ∷ [])

abbrev result_of : ℕ → PlayoutResult
result_of k = record {
  node_id = key_of (k ∷ []);
  leaf_run_id = k ∷ [];
  reward = one;
  reason = codes "pass";
}

first_played : playout counting 3 0 new_tree 0 ≡ some (returns (some (result_of 0)), first_tree, 1)
unfolding playout select simulate score_run parent_state_for_fork verify verdict pattern_of
    pick_variant reward_from_result compose_instruction replace_instruction node_row record_new_node
    backprop climb credit
first_played = refl

second_played :
    playout counting 3 1 first_tree 1 ≡ some (returns (some (result_of 1)), second_tree, 2)
unfolding playout select simulate score_run parent_state_for_fork verify verdict pattern_of
    pick_variant reward_from_result compose_instruction replace_instruction node_row record_new_node
    backprop climb credit
second_played = refl

two_played : Played counting 3 0 new_tree 0 (result_of 0 ∷ result_of 1 ∷ []) second_tree 2
two_played = Played.scored first_played (Played.scored second_played Played.over)

search-line_example : shape second_tree ≡ line (root_id ∷ key_of (0 ∷ []) ∷ key_of (1 ∷ []) ∷ [])
search-line_example = search-line counting 3 ((refl, (refl, tt)), ((refl, tt), (tt, tt))) two_played
