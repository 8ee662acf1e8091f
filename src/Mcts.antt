-- ===== src/Mcts.antt =====
-- mcts.py: the shared tree of a search, and what a worker does to it while it holds the lock. A
-- node is identified by its key: run ids are fresh UUIDs. Division, square root and logarithm of
-- floats are parameters.
pub mod Lookup
pub mod History
pub mod Climb
pub mod Rooted
pub mod Tally
pub mod Line
pub mod Playout
use termiclaw.Prelude.{
  ℕ, zero, suc, ◌+◌, ◌%◌, max, Text, codes, text_eq, List, [], ◌∷◌, ◌++◌, map, Option, none, some,
  Bool, true, false, ◌&&◌, ◌==◌, if◌then◌else◌, length, pos,
}
use termiclaw.Float.{Float, inf, finite, ltb_float, add_float}
use termiclaw.Errors.{Raises, returns, raises, key_error}

pub record NodeId : Type 0 where
  pub run_id : Text
  pub step_index : ℕ

abbrev pub id_eq : NodeId → NodeId → Bool
id_eq a b = text_eq a.run_id b.run_id && a.step_index == b.step_index

pub record Node : Type 0 where
  pub id : NodeId
  pub parent : Option NodeId
  pub variant : Text
  pub children : List NodeId
  pub visits : ℕ
  pub total_reward : Float
  pub best_reward : Float
  pub best_leaf_run_id : Text

-- `self.nodes`, in the order of insertion.
abbrev pub Tree : Type 0
Tree = List Node

abbrev pub zero_float : Float
zero_float = finite (pos 0)

-- A new `Node` with the defaults.
abbrev pub new_node : NodeId → Option NodeId → Text → Node
new_node id parent variant = record {
  id = id;
  parent = parent;
  variant = variant;
  children = [];
  visits = 0;
  total_reward = zero_float;
  best_reward = zero_float;
  best_leaf_run_id = [];
}

abbrev pub root_id : NodeId
root_id = record { run_id = codes "root"; step_index = 0 }

-- The tree that `__init__` makes.
abbrev pub new_tree : Tree
new_tree = new_node root_id none [] ∷ []

-- `self.nodes.get(id)`
abbrev pub find : Tree → NodeId → Option Node
find [] id = none
find (n ∷ t) id = if id_eq n.id id then some n else find t id

-- A change of the node with a key.
abbrev pub update : Tree → NodeId → (Node → Node) → Tree
update [] id f = []
update (n ∷ t) id f = if id_eq n.id id then f n ∷ t else n ∷ update t id f

-- What mcts.py takes from C: `total / visits` for visits above 0, and
-- `c * sqrt(log(max(parent_visits, 1)) / visits)`.
pub record Libm : Type 0 where
  pub divide : Float → ℕ → Float
  pub explore : Float → ℕ → ℕ → Float

unfoldable pub mean_reward : Libm → Node → Float
mean_reward m node = if node.visits == 0 then zero_float else m.divide node.total_reward node.visits

unfoldable pub ucb1 : Libm → Node → ℕ → Float → Float
unfolding mean_reward
ucb1 m node parent_visits c =
    if node.visits == 0
    then inf
    else add_float (mean_reward m node) (m.explore c (max parent_visits 1) node.visits)

-- `max(items, key=key)`: the first of the greatest, as `>` has it.
abbrev pub best_on : {A : Type 0} → A → Float → (A → Float) → List A → A
best_on best score key [] = best
best_on best score key (x ∷ xs) =
    best_on (if ltb_float score (key x) then x else best)
      (if ltb_float score (key x) then key x else score) key xs

-- `self.nodes[cid]` for every child; a missing key raises KeyError.
abbrev pub nodes_of : Tree → List NodeId → Raises (List Node)
nodes_of t [] = returns []
nodes_of t (id ∷ ids) = elim (find t id) [
  | none ↦ raises key_error
  | some n ↦ elim (nodes_of t ids) [ raises x ↦ raises x | returns ns ↦ returns (n ∷ ns) ]
]

-- The `while current.children` loop of `_select`, on fuel; `none` is fuel that ran out.
unfoldable pub select : ℕ → Libm → Float → Tree → Node → Option (Raises Node)
unfolding ucb1
select zero m c t current = none
select (suc fuel) m c t current = elim (nodes_of t current.children) [
  | raises x ↦ some (raises x)
  | returns [] ↦ some (returns current)
  | returns (n ∷ ns) ↦
      select fuel m c t
        (best_on n (ucb1 m n (max current.visits 1) c) (λ k. ucb1 m k (max current.visits 1) c) ns)
]

-- `_record_new_node`
unfoldable pub record_new_node : Tree → NodeId → Text → Text → Tree
record_new_node t parent run_id variant =
    let id : NodeId = record { run_id = run_id; step_index = 0 } in
    update t parent (λ p. record p { children = p.children ++ id ∷ [] })
    ++ new_node id (some parent) variant ∷ []

-- What `_backprop` does to one node on the way up.
unfoldable pub credit : Float → Text → Node → Node
credit reward leaf node = record node {
  visits = node.visits + 1;
  total_reward = add_float node.total_reward reward;
  best_reward = if ltb_float node.best_reward reward then reward else node.best_reward;
  best_leaf_run_id = if ltb_float node.best_reward reward then leaf else node.best_leaf_run_id;
}

-- The `while current is not None` loop of `_backprop`, on fuel, and the nodes that it updated.
unfoldable pub climb : ℕ → Tree → NodeId → Float → Text → Tree × List NodeId
climb zero t id reward leaf = (t, [])
climb (suc fuel) t id reward leaf = elim (find t id) [
  | none ↦ (t, [])
  | some n ↦ elim n.parent [
    | none ↦ (update t id (credit reward leaf), id ∷ [])
    | some p ↦ (
      (climb fuel (update t id (credit reward leaf)) p reward leaf).0,
      id ∷ (climb fuel (update t id (credit reward leaf)) p reward leaf).1,
    )
  ]
]

-- `_backprop`. A way up meets no node twice, so the number of nodes is fuel enough.
unfoldable pub backprop : Tree → NodeId → Float → Tree × List NodeId
unfolding climb
backprop t id reward = climb (length t) t id reward id.run_id

-- `_best_child`
unfoldable pub best_child : Libm → Tree → Node → Raises (Option Node)
unfolding mean_reward
best_child m t node = elim (nodes_of t node.children) [
  | raises x ↦ raises x
  | returns [] ↦ returns none
  | returns (n ∷ ns) ↦ returns (some (best_on n (mean_reward m n) (mean_reward m) ns))
]

-- `variants[k]`, or the given text out of range.
abbrev pub nth : ℕ → Text → List Text → Text
nth k default [] = default
nth zero default (v ∷ vs) = v
nth (suc k) default (v ∷ vs) = nth k default vs

unfoldable pub pick_variant : List Text → ℕ → Text
pick_variant [] playout_idx = []
pick_variant (v ∷ vs) playout_idx = nth (playout_idx % length (v ∷ vs)) v (v ∷ vs)
