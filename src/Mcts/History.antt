-- ===== src/Mcts/History.antt =====
-- mcts.py: a history of what the workers do to the tree under the lock, and the shape of the tree.
use termiclaw.Prelude.{
  ℕ, zero, suc, ◌<◌, Text, List, [], ◌∷◌, Option, none, some, Bool, true, false, ◌≡◌, refl, ap,
  length, if◌then◌else◌,
}
use termiclaw.Float.{Float}
use termiclaw.Mcts.{NodeId, Node, Tree, root_id, id_eq, find, update, backprop, record_new_node}
use termiclaw.Mcts.Lookup.{changed, find-update}

-- What one worker does to the tree while it holds the lock.
pub data Op : Type 0 where
  expanded : (parent : NodeId) (run_id variant : Text) → Op
  credited : (leaf : NodeId) (reward : Float) → Op

abbrev pub apply_op : Tree → Op → Tree
apply_op t (expanded parent run_id variant) = record_new_node t parent run_id variant
apply_op t (credited leaf reward) = (backprop t leaf reward).0

abbrev pub key_of : Text → NodeId
key_of run_id = record { run_id = run_id; step_index = 0 }

-- What a node that may be there has in one field.
abbrev pub view_in : {X : Type 0} → (Node → X) → Option Node → Option X
view_in g none = none
view_in g (some n) = some (g n)

abbrev pub parent_in : Option Node → Option (Option NodeId)
parent_in o = view_in (λ n. n.parent) o

-- The parent's key of a node that is in the tree.
abbrev pub parent_of : Tree → NodeId → Option (Option NodeId)
parent_of t id = parent_in (find t id)

-- A worker expands a node that is there, under a run id that is new, and credits a node that is
-- there.
abbrev pub Allowed : Tree → Op → Type 0
Allowed t (expanded parent run_id variant) =
    ((q : Option NodeId) × (parent_of t parent ≡ some q)) × (find t (key_of run_id) ≡ none)
Allowed t (credited leaf reward) = (q : Option NodeId) × (parent_of t leaf ≡ some q)

abbrev pub AllAllowed : Tree → List Op → Type 0
AllAllowed t [] = Unit {0}
AllAllowed t (op ∷ ops) = Allowed t op × AllAllowed (apply_op t op) ops

-- The way up from a node meets `k` nodes before the root.
abbrev pub Up : Tree → NodeId → ℕ → Type 0
Up t id zero = (id ≡ root_id) × (parent_of t id ≡ some none)
Up t id (suc k) = (p : NodeId) × (parent_of t id ≡ some (some p)) × Up t p k

pub record IsRooted (t : Tree) : Type 0 where
  pub root : parent_of t root_id ≡ some none
  pub ways :
      (id : NodeId) (q : Option NodeId)
      → parent_of t id ≡ some q
      → (k : ℕ) × (k < length t) × Up t id k

abbrev pub apply_ops : Tree → List Op → Tree
apply_ops t [] = t
apply_ops t (op ∷ ops) = apply_ops (apply_op t op) ops

-- A change of other fields.
pub view-update :
    {X : Type 0} (g : Node → X) (t : Tree) (j : NodeId) (f : Node → Node)
    → ((n : Node) → (f n).id ≡ n.id)
    → ((n : Node) → g (f n) ≡ g n)
    → (id : NodeId) → view_in g (find (update t j f) id) ≡ view_in g (find t id)
view-update {X} g t j f keeps same id =
    rw (find-update t j id f keeps) (go (id_eq j id) (find t id))
  where
    go : (b : Bool) (o : Option Node) → view_in g (if b then changed f o else o) ≡ view_in g o
    go true none = refl
    go true (some n) = ap some (same n)
    go false o = refl

-- A way up stays when nodes keep their parents.
pub Up-kept :
    (t u : Tree)
    → ((id : NodeId) (q : Option NodeId) → parent_of t id ≡ some q → parent_of u id ≡ some q)
    → (id : NodeId) (k : ℕ) → Up t id k
    → Up u id k
Up-kept t u kept id zero h = (h.0, kept id none h.1)
Up-kept t u kept id (suc k) (p, e, h) = (p, kept id (some p) e, Up-kept t u kept p k h)
