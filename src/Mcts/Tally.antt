-- ===== src/Mcts/Tally.antt =====
-- mcts.py: the counters of the root, over any interleaving of the workers.
use mathlib.Core.List.{foldl}
use termiclaw.Prelude.{
  ℕ, ◌+◌, Text, List, [], ◌∷◌, ◌++◌, Option, none, some, Bool, true, false, ◌≡◌, refl, ap, ◌∙◌,
  length, if◌then◌else◌, inl, inr, Option-cases,
}
use termiclaw.Float.{Float, ltb_float, add_float}
use termiclaw.Mcts.{
  NodeId, Node, Tree, root_id, new_node, new_tree, zero_float, id_eq, find, update, credit,
  backprop, record_new_node,
}
use termiclaw.Mcts.Lookup.{changed, find-update, find-append}
use termiclaw.Mcts.History.{
  Op, expanded, credited, apply_op, key_of, parent_of, Allowed, AllAllowed, IsRooted, apply_ops,
}
use termiclaw.Mcts.Climb.{climb-credits}
use termiclaw.Mcts.Rooted.{apply_op-IsRooted, new_tree-IsRooted}

-- The counters of a node.
pub record Stats : Type 0 where
  pub visits : ℕ
  pub total_reward : Float
  pub best_reward : Float
  pub best_leaf_run_id : Text

abbrev pub stats_of : Node → Stats
stats_of n = record {
  visits = n.visits;
  total_reward = n.total_reward;
  best_reward = n.best_reward;
  best_leaf_run_id = n.best_leaf_run_id;
}

abbrev pub no_stats : Stats
no_stats = record {
  visits = 0;
  total_reward = zero_float;
  best_reward = zero_float;
  best_leaf_run_id = [];
}

-- The counters after one reward, and over a history: only the credits count.
abbrev pub tally : Stats → Op → Stats
tally s (expanded parent run_id variant) = s
tally s (credited leaf reward) = record {
  visits = s.visits + 1;
  total_reward = add_float s.total_reward reward;
  best_reward = if ltb_float s.best_reward reward then reward else s.best_reward;
  best_leaf_run_id = if ltb_float s.best_reward reward then leaf.run_id else s.best_leaf_run_id;
}

-- The counters of the root of a tree.
abbrev pub stats_in : Option Node → Option Stats
stats_in none = none
stats_in (some n) = some (stats_of n)

abbrev pub root_stats : Tree → Option Stats
root_stats t = stats_in (find t root_id)

credit-tally :
    (x : Node) (leaf : NodeId) (reward : Float)
    → stats_of (credit reward leaf.run_id x) ≡ tally (stats_of x) (credited leaf reward)
unfolding credit
credit-tally x leaf reward = refl

-- A new child changes no counter of the root.
root_stats-record_new_node :
    (t : Tree) (parent : NodeId) (run_id variant : Text) (x : Node)
    → find t root_id ≡ some x
    → root_stats (record_new_node t parent run_id variant) ≡ some (stats_of x)
unfolding record_new_node
root_stats-record_new_node t parent run_id variant x root =
    let link : Node → Node = λ p. record p { children = p.children ++ key_of run_id ∷ [] } in
    ap stats_in (
      find-append (update t parent link) (new_node (key_of run_id) (some parent) variant ∷ [])
        root_id
      ∙ ap
          (λ o. elim o [
            | none ↦ find (new_node (key_of run_id) (some parent) variant ∷ []) root_id
            | some n ↦ some n
          ])
          (find-update t parent root_id link (λ n. refl)
            ∙ ap (λ o. if id_eq parent root_id then changed link o else o) root))
    ∙ go (id_eq parent root_id)
  where
    go :
        (b : Bool)
        → stats_in
            (elim (if b
              then some (record x { children = x.children ++ key_of run_id ∷ [] })
              else some x) [
                | none ↦ find (new_node (key_of run_id) (some parent) variant ∷ []) root_id
                | some n ↦ some n
              ])
          ≡ some (stats_of x)
    go true = refl
    go false = refl

-- A reward credits the root once.
root_stats-backprop :
    (t : Tree) (leaf : NodeId) (q : Option NodeId) (reward : Float) (x : Node)
    → IsRooted t
    → parent_of t leaf ≡ some q
    → find t root_id ≡ some x
    → root_stats (backprop t leaf reward).0 ≡ some (tally (stats_of x) (credited leaf reward))
unfolding backprop
root_stats-backprop t leaf q reward x h there root =
    let way = h.ways leaf q there in
    let top : x.parent ≡ none = cc (root, h.root) in
    ap stats_in (climb-credits (length t) way.0 t leaf reward leaf.run_id x root top way.2 way.1)
    ∙ ap some (credit-tally x leaf reward)

root_found :
    (t : Tree) (s : Stats)
    → root_stats t ≡ some s
    → (x : Node) × (find t root_id ≡ some x) × (stats_of x ≡ s)
root_found t s e = elim (Option-cases (find t root_id)) [
  | inl missing ↦ absurd (cc (ap stats_in missing, e))
  | inr (x, found) ↦ (x, found, cc (ap stats_in found, e))
]

apply_op-root_stats :
    (t : Tree) (op : Op) (s : Stats)
    → IsRooted t
    → Allowed t op
    → root_stats t ≡ some s
    → root_stats (apply_op t op) ≡ some (tally s op)
apply_op-root_stats t (expanded parent run_id variant) s h allowed e =
    let (x, found, same) = root_found t s e in
    root_stats-record_new_node t parent run_id variant x found ∙ ap some same
apply_op-root_stats t (credited leaf reward) s h (q, there) e =
    let (x, found, same) = root_found t s e in
    root_stats-backprop t leaf q reward x h there found
    ∙ ap (λ y. some (tally y (credited leaf reward))) same

pub apply_ops-tally :
    (t : Tree) (ops : List Op) (s : Stats)
    → IsRooted t
    → AllAllowed t ops
    → root_stats t ≡ some s
    → root_stats (apply_ops t ops) ≡ some (foldl tally s ops)
apply_ops-tally t [] s h allowed e = e
apply_ops-tally t (op ∷ ops) s h (now, later) e =
    apply_ops-tally (apply_op t op) ops (tally s op) (apply_op-IsRooted t op h now) later
      (apply_op-root_stats t op s h now e)

-- For every sequence of expansions and credits on the new tree, in which each expands a node that
-- is there under a key that is new, or credits a node that is there: the visits, the total
-- reward, the best reward and the best leaf of the root are the fold of the credits, in their
-- order, and no expansion counts.
pub search-tally :
    (ops : List Op)
    → AllAllowed new_tree ops
    → root_stats (apply_ops new_tree ops) ≡ some (foldl tally no_stats ops)
search-tally ops allowed = apply_ops-tally new_tree ops no_stats new_tree-IsRooted allowed refl
