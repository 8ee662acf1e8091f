-- ===== src/Mcts/Playout.antt =====
-- mcts.py: a playout, and the whole search. The agent's run, the verifier's process and the database
-- are parameters: the run is an argument of `MctsSearch` in the source too.
pub mod Caught
pub mod Depth
pub mod Grows
pub mod Sequence
use termiclaw.Prelude.{
  ℕ, zero, suc, ◌+◌, pos_part, Text, codes, decimal, List, [], ◌∷◌, ◌++◌, Option, none, some,
  nonempty, map, length, if◌then◌else◌,
}
use termiclaw.Float.{Float}
use termiclaw.Errors.{
  Raises, returns, raises, Exception, mcts, Result, ok, err, ContainerError, container_error,
  image_build_error, provision_error, session_dead,
}
use termiclaw.Action.{Action, pure, raise, lift, ◌>>=◌, ◌>>◌}
use termiclaw.Model.{Config, RunInfo}
use termiclaw.State.{State, fresh_state, coerce_status}
use termiclaw.TaskFile.{TaskSpec}
use termiclaw.Verifier.{VerifierSpec, VerifierResult, Search, Outcome, verify, reward_from_result}
use termiclaw.Agent.Run.{is_termiclaw_error}
use termiclaw.Mcts.{
  NodeId, Node, Tree, Libm, root_id, new_node, new_tree, find, select, pick_variant,
  record_new_node, backprop, best_child, zero_float,
}

-- `str(e)` of a container error.
abbrev pub container_error_text : ContainerError → Text
container_error_text (container_error m) = m
container_error_text (image_build_error m) = m
container_error_text (provision_error m) = m
container_error_text (session_dead m) = m

pub record PlayoutResult : Type 0 where
  pub node_id : NodeId
  pub leaf_run_id : Text
  pub reward : Float
  pub reason : Text

-- The arguments of `upsert_mcts_node` after the connection.
pub record NodeRow : Type 0 where
  pub node_id : Text
  pub search_id : Text
  pub parent_node_id : Option Text
  pub run_id : Text
  pub step_index : ℕ
  pub variant : Text
  pub visits : ℕ
  pub total_reward : Float
  pub best_reward : Float
  pub best_leaf_run_id : Text

-- What a search has: the fields that `__init__` sets, and what it calls.
pub record MctsSearch (W : Type 0) : Type 0 where
  pub task : TaskSpec
  pub verifier : VerifierSpec
  pub playouts : ℕ
  pub config : Config
  pub variants : List Text
  pub expansion_depth : ℕ
  pub ucb_c : Float
  pub search_id : Text
  pub agent_run : Config → Option State → Action W State
  pub search_text : Search
  pub run_process : List Text → Float → Action W (Outcome × Float)
  pub get_run : Text → Action W (Option RunInfo)
  pub insert_search : (search_id task_file started_at : Text) → Action W (Unit {0})
  pub finish_search :
      (search_id finished_at : Text) (total_playouts : ℕ) (best_run_id : Text) (best_reward : Float)
      → Action W (Unit {0})
  pub upsert_node : NodeRow → Action W (Unit {0})
  pub libm : Libm

-- The guard of `__init__`: the verifier that a search must have.
unfoldable pub required_verifier : TaskSpec → Raises VerifierSpec
required_verifier task = elim task.verifier [
  | none ↦ raises (mcts (codes "MCTS requires a task verifier for scoring"))
  | some spec ↦ returns spec
]

unfoldable pub compose_instruction : Text → Text → Text
compose_instruction base variant =
    if nonempty variant then base ++ (codes "\n\nHint: " ++ variant) else base

unfoldable pub replace_instruction : Config → Text → ℕ → Config
replace_instruction config instruction max_turns = record config {
  instruction = instruction;
  max_turns = max_turns;
}

-- The state made of a row that the database has, whose count of steps is not negative.
abbrev pub state_of : RunInfo → State
state_of info =
    record (fresh_state info.run_id info.instruction info.tmux_session info.started_at) {
      status = coerce_status info.status;
      container_id = info.container_id;
      claude_session_id = info.claude_session_id;
      current_step = pos_part info.total_steps;
    }

abbrev pub forkable : Option RunInfo → Option State
forkable none = none
forkable (some info) = if nonempty info.claude_session_id then some (state_of info) else none

abbrev pub key_text : NodeId → Text
key_text id = id.run_id ++ (codes ":" ++ decimal id.step_index)

abbrev pub parent_text : Option NodeId → Option Text
parent_text none = none
parent_text (some id) = some (key_text id)

unfoldable pub node_row : Text → Node → NodeRow
node_row search_id node = record {
  node_id = key_text node.id;
  search_id = search_id;
  parent_node_id = parent_text node.parent;
  run_id = node.id.run_id;
  step_index = node.id.step_index;
  variant = node.variant;
  visits = node.visits;
  total_reward = node.total_reward;
  best_reward = node.best_reward;
  best_leaf_run_id = node.best_leaf_run_id;
}

-- The reward and the reason of a verdict.
abbrev pub scored : Result VerifierResult ContainerError → Float × Text
scored (err e) = (zero_float, codes "verifier_error: " ++ container_error_text e)
scored (ok r) = (reward_from_result r, r.reason)

module _ {W : Type 0} (s : MctsSearch W) where
  unfoldable pub parent_state_for_fork : Node → Action W (Option State)
  parent_state_for_fork parent = elim parent.parent [
    | none ↦ pure none
    | some _ ↦ s.get_run parent.id.run_id >>= λ info. pure (forkable info)
  ]

  unfoldable pub score_run : State → VerifierSpec → Action W (Float × Text)
  score_run state spec =
      if nonempty state.container_id
      then (verify s.search_text s.run_process state.container_id spec >>= λ r. pure (scored r))
      else pure (zero_float, codes "container_gone")

  -- The end of `_simulate`, with the state that the run ended in.
  abbrev pub rewarded : State → Action W (Text × Float × Text)
  rewarded state =
      if nonempty state.container_id
      then (score_run state s.verifier >>= λ r. pure (state.run_id, r.0, r.1))
      else pure (state.run_id, zero_float, codes "container_never_started")

  unfoldable pub simulate : Node → Text → Action W (Text × Float × Text)
  simulate parent variant = do
    parent_state ← parent_state_for_fork parent
    state ←
        s.agent_run
          (replace_instruction s.config (compose_instruction s.task.instruction variant)
            s.expansion_depth)
          parent_state
    rewarded state

  -- The loop of `_persist_node` at the end of `_backprop`, over the tree as it then is.
  abbrev pub persist_all : Tree → List NodeId → Action W (Unit {0})
  persist_all t [] = pure tt
  persist_all t (id ∷ ids) = elim (find t id) [
    | none ↦ persist_all t ids
    | some n ↦ s.upsert_node (node_row s.search_id n) >> persist_all t ids
  ]

  -- `_record_new_node` and `_backprop`, after a simulation.
  abbrev pub expand : Tree → Node → Text → Text × Float × Text → W → Raises PlayoutResult × Tree × W
  expand t parent variant (run_id, reward, reason) w =
      let id : NodeId = record { run_id = run_id; step_index = 0 } in
      let grown = record_new_node t parent.id run_id variant in
      let done = backprop grown id reward in
      let persisted = persist_all done.0 done.1 w in
      (
        elim persisted.0 [
          | raises x ↦ raises x
          | returns _ ↦
              returns
                (record { node_id = id; leaf_run_id = run_id; reward = reward; reason = reason })
        ],
        done.0,
        persisted.1,
      )

  -- The body of `_playout`, from the selected node on.
  abbrev pub simulated :
      Tree → Node → Text → Raises (Text × Float × Text) × W → Raises PlayoutResult × Tree × W
  simulated t parent variant (raises x, w) = (raises x, t, w)
  simulated t parent variant (returns r, w) = expand t parent variant r w

  -- `_playout`'s `except TermiclawError`: the failure is logged, and there is no result.
  abbrev pub caught : Raises PlayoutResult → Raises (Option PlayoutResult)
  caught (returns r) = returns (some r)
  caught (raises x) = if is_termiclaw_error x then returns none else raises x

  abbrev pub selected : ℕ → Tree → Raises Node → W → Raises PlayoutResult × Tree × W
  selected idx t (raises x) w = (raises x, t, w)
  selected idx t (returns parent) w =
      simulated t parent (pick_variant s.variants idx)
        (simulate parent (pick_variant s.variants idx) w)

  abbrev pub after_try : Raises PlayoutResult × Tree × W → Raises (Option PlayoutResult) × Tree × W
  after_try (r, t, w) = (caught r, t, w)

  abbrev pub after_select :
      ℕ → Tree → W → Option (Raises Node) → Option (Raises (Option PlayoutResult) × Tree × W)
  after_select idx t w none = none
  after_select idx t w (some parent) = some (after_try (selected idx t parent w))

  -- The object `self.root`.
  abbrev pub root_of : Tree → Node
  root_of t = elim (find t root_id) [ none ↦ new_node root_id none [] | some n ↦ n ]

  -- `_playout`, one at a time: `none` is fuel that ran out in `_select`.
  unfoldable pub playout : ℕ → ℕ → Tree → W → Option (Raises (Option PlayoutResult) × Tree × W)
  playout fuel idx t w = after_select idx t w (select fuel s.libm s.ucb_c t (root_of t))

  -- The futures of one worker: each playout runs, whatever became of the one before. The first
  -- exception that a future holds is what `f.result()` raises in the end.
  abbrev pub first_raise : Raises (Option PlayoutResult) → Raises (Unit {0}) → Raises (Unit {0})
  first_raise (raises x) later = raises x
  first_raise (returns _) later = later

  abbrev pub playouts_from : ℕ → ℕ → ℕ → Tree → W → Option (Raises (Unit {0}) × Tree × W)
  playouts_from fuel idx zero t w = some (returns tt, t, w)
  playouts_from fuel idx (suc left) t w = elim (playout fuel idx t w) [
    | none ↦ none
    | some (r, u, v) ↦ elim (playouts_from fuel (idx + 1) left u v) [
      | none ↦ none
      | some (later, u', v') ↦ some (first_raise r later, u', v')
    ]
  ]

  abbrev pub best_or_root : Tree → Option Node → Node
  best_or_root t none = root_of t
  best_or_root t (some n) = n

  -- The end of `run`: the best child, and the row of the finished search.
  abbrev pub finished_search : Text → Raises (Unit {0}) → Tree → Action W Node
  finished_search finished_at (raises x) t = raise x
  finished_search finished_at (returns _) t = do
    best ← lift (best_child s.libm t (root_of t))
    s.finish_search s.search_id finished_at (root_of t).visits (root_of t).best_leaf_run_id
        (root_of t).best_reward
    pure (best_or_root t best)

  abbrev pub started_search : ℕ → Text → Raises (Unit {0}) → W → Option (Raises Node × Tree × W)
  started_search fuel finished_at (raises x) w = some (raises x, new_tree, w)
  started_search fuel finished_at (returns _) w =
      elim (playouts_from fuel 0 s.playouts new_tree w) [
        | none ↦ none
        | some (r, t, v) ↦ let out = finished_search finished_at r t v in some (out.0, t, out.1)
      ]

  -- `run` with one worker, which is the default of the command line.
  unfoldable pub run : ℕ → Text → Text → W → Option (Raises Node × Tree × W)
  run fuel started_at finished_at w =
      let begun = s.insert_search s.search_id s.task.name started_at w in
      started_search fuel finished_at begun.0 begun.1
