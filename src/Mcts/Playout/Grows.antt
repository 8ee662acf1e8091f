-- ===== src/Mcts/Playout/Grows.antt =====
-- mcts.py: the depth of the tree is less than the number of its nodes, so that `_select` ends.
use termiclaw.Prelude.{
  ℕ, zero, suc, ◌+◌, Text, List, [], ◌∷◌, ◌++◌, Option, none, some, Bool, true, false, ◌≡◌, refl,
  sym, ap, ◌∙◌, subst, arith, ◌⊎◌, inl, inr, if◌then◌else◌, length,
}
use termiclaw.Float.{Float}
use termiclaw.Errors.{Raises}
use termiclaw.Mcts.{
  NodeId, Node, Tree, Libm, new_node, new_tree, root_id, id_eq, select, find, update,
  record_new_node, backprop, climb,
}
use termiclaw.Mcts.Lookup.{changed, find-append, find-update}
use termiclaw.Mcts.History.{Op, expanded, credited, apply_ops, key_of, view_in, AllAllowed}
use termiclaw.Mcts.Climb.{climb-children, length-climb}
use termiclaw.Mcts.Rooted.{length-record_new_node}
use termiclaw.Mcts.Playout.Depth.{Kids, Shallow, leaf-Shallow, select-enough}

-- Every node of the tree has a way down of at most k edges.
abbrev AllShallow : ℕ → Tree → Type 0
AllShallow k t = (c : NodeId) (m : Node) → find t c ≡ some m → Shallow k t m

abbrev children_in : Option Node → Option (List NodeId)
children_in o = view_in (λ n. n.children) o

abbrev kids_or : List NodeId → Option Node → List NodeId
kids_or cs none = cs
kids_or cs (some n) = n.children

view-found :
    (o : Option Node) (cs : List NodeId)
    → children_in o ≡ some cs
    → (n : Node) × (o ≡ some n) × (n.children ≡ cs)
view-found none cs e = absurd (cc e)
view-found (some n) cs e = (n, refl, cc e)

Kids-map :
    (P Q : Node → Type 0) (t u : Tree) (cs : List NodeId)
    → ((c : NodeId) → ((n : Node) → find t c ≡ some n → P n) → (m : Node) → find u c ≡ some m → Q m)
    → Kids P t cs
    → Kids Q u cs
Kids-map P Q t u [] f h = tt
Kids-map P Q t u (c ∷ cs) f (now, later) = (f c now, Kids-map P Q t u cs f later)

Kids-append :
    (Q : Node → Type 0) (u : Tree) (cs : List NodeId) (id : NodeId)
    → Kids Q u cs
    → ((m : Node) → find u id ≡ some m → Q m)
    → Kids Q u (cs ++ id ∷ [])
Kids-append Q u [] id h last = (last, tt)
Kids-append Q u (c ∷ cs) id (now, later) last = (now, Kids-append Q u cs id later last)

-- A tree with the same children at every key.
module _ (t u : Tree) (same : (c : NodeId) → children_in (find u c) ≡ children_in (find t c)) where
  was_there :
      (c : NodeId) (m : Node)
      → find u c ≡ some m
      → (n : Node) × (find t c ≡ some n) × (n.children ≡ m.children)
  was_there c m found = view-found (find t c) m.children (sym (same c) ∙ ap children_in found)

  Shallow-same : (k : ℕ) (n m : Node) → m.children ≡ n.children → Shallow k t n → Shallow k u m
  Shallow-same zero n m e h = e ∙ h
  Shallow-same (suc k) n m e h = rw e (
      Kids-map (Shallow k t) (Shallow k u) t u n.children
        (λ c now x found.
          let (y, was, e') = was_there c x found in Shallow-same k y x (sym e') (now y was))
        h)

  AllShallow-same : (k : ℕ) → AllShallow k t → AllShallow k u
  AllShallow-same k h c m found =
      let (n, was, e) = was_there c m found in Shallow-same k n m (sym e) (h c n was)

-- A tree in which one node may have one child more, which is a leaf.
module _ (t u : Tree) (id : NodeId) (leaf : (m : Node) → find u id ≡ some m → m.children ≡ [])
    (grown : (c : NodeId) (m : Node)
      → find u c ≡ some m
      → (m.children ≡ [])
        ⊎ ((n : Node) × (find t c ≡ some n)
            × ((m.children ≡ n.children) ⊎ (m.children ≡ n.children ++ id ∷ [])))) where
  -- A node of the new tree, by what it was.
  kid :
      (k : ℕ)
      → ((n m : Node)
          → (m.children ≡ n.children) ⊎ (m.children ≡ n.children ++ id ∷ [])
          → Shallow k t n
          → Shallow (suc k) u m)
      → (c : NodeId) → ((n : Node) → find t c ≡ some n → Shallow k t n)
      → (m : Node) → find u c ≡ some m
      → Shallow (suc k) u m
  kid k again c now m found = elim (grown c m found) [
    | inl none_yet ↦ leaf-Shallow (suc k) u m none_yet
    | inr (n, was, e) ↦ again n m e (now n was)
  ]

  Shallow-grown :
      (k : ℕ) (n m : Node)
      → (m.children ≡ n.children) ⊎ (m.children ≡ n.children ++ id ∷ [])
      → Shallow k t n
      → Shallow (suc k) u m
  Shallow-grown zero n m (inl e) h = rw (e, h) tt
  Shallow-grown zero n m (inr e) h = rw (e, h) (leaf, tt)
  Shallow-grown (suc k) n m (inl e) h =
      rw e (Kids-map (Shallow k t) (Shallow (suc k) u) t u n.children (kid k (Shallow-grown k)) h)
  Shallow-grown (suc k) n m (inr e) h = rw e (
      Kids-append (Shallow (suc k) u) u n.children id
        (Kids-map (Shallow k t) (Shallow (suc k) u) t u n.children (kid k (Shallow-grown k)) h)
        (λ x found. leaf-Shallow (suc k) u x (leaf x found)))

  AllShallow-grown : (k : ℕ) → AllShallow k t → AllShallow (suc k) u
  AllShallow-grown k h c m found = kid k (Shallow-grown k) c (h c) m found

-- A credit changes no children.
backprop-AllShallow :
    (k : ℕ) (t : Tree) (leaf : NodeId) (reward : Float)
    → AllShallow k t
    → AllShallow k (backprop t leaf reward).0
unfolding backprop
backprop-AllShallow k t leaf reward h =
    AllShallow-same t (climb (length t) t leaf reward leaf.run_id).0
      (climb-children (length t) t leaf reward leaf.run_id) k h

-- A node of the tree after `_record_new_node`: the new one, or one that was there, with perhaps the
-- new key as one child more.
module _ (t : Tree) (parent : NodeId) (run_id variant : Text) where
  abbrev link : Node → Node
  link p = record p { children = p.children ++ key_of run_id ∷ [] }

  abbrev fresh_node : Node
  fresh_node = new_node (key_of run_id) (some parent) variant

  abbrev after : Bool → Option Node → Bool → Option Node
  after b o b' = elim (if b then changed link o else o) [
    | none ↦ (if b' then some fresh_node else none)
    | some n ↦ some n
  ]

  abbrev Origin : Option Node → Node → Type 0
  Origin o m =
      (m.children ≡ [])
      ⊎ ((n : Node) × (o ≡ some n)
          × ((m.children ≡ n.children) ⊎ (m.children ≡ n.children ++ key_of run_id ∷ [])))

  after-Origin :
      (b : Bool) (o : Option Node) (b' : Bool) (m : Node) → after b o b' ≡ some m → Origin o m
  after-Origin true none true m e = inl (cc e)
  after-Origin false none true m e = inl (cc e)
  after-Origin true none false m e = absurd (cc e)
  after-Origin false none false m e = absurd (cc e)
  after-Origin true (some n) b' m e = inr (n, refl, inr (sym (ap (kids_or []) e)))
  after-Origin false (some n) b' m e = inr (n, refl, inl (sym (ap (kids_or []) e)))

  record_new_node-Origin :
      (c : NodeId) (m : Node)
      → find (record_new_node t parent run_id variant) c ≡ some m
      → Origin (find t c) m
  unfolding record_new_node
  record_new_node-Origin c m found =
      after-Origin (id_eq parent c) (find t c) (id_eq (key_of run_id) c) m (
        ap (λ o. elim o [ none ↦ find (fresh_node ∷ []) c | some n ↦ some n ])
          (sym (find-update t parent c link (λ n. refl)))
        ∙ (sym (find-append (update t parent link) (fresh_node ∷ []) c) ∙ found))

-- The new node gives its parent one child more.
record_new_node-AllShallow :
    (k : ℕ) (t : Tree) (parent : NodeId) (run_id variant : Text)
    → find t (key_of run_id) ≡ none
    → AllShallow k t
    → AllShallow (suc k) (record_new_node t parent run_id variant)
record_new_node-AllShallow k t parent run_id variant fresh h =
    AllShallow-grown t (record_new_node t parent run_id variant) (key_of run_id)
      (λ m found. elim (record_new_node-Origin t parent run_id variant (key_of run_id) m found) [
        | inl none_yet ↦ none_yet
        | inr (n, was, _) ↦ absurd (cc (fresh, was))
      ])
      (record_new_node-Origin t parent run_id variant) k h

length-backprop :
    (t : Tree) (leaf : NodeId) (reward : Float) → length (backprop t leaf reward).0 ≡ length t
unfolding backprop
length-backprop t leaf reward = length-climb (length t) t leaf reward leaf.run_id

pub apply_ops-AllShallow :
    (t : Tree) (ops : List Op)
    → AllAllowed t ops
    → AllShallow (length t) t
    → AllShallow (length (apply_ops t ops)) (apply_ops t ops)
apply_ops-AllShallow t [] allowed h = h
apply_ops-AllShallow t (expanded parent run_id variant ∷ ops) (now, later) h =
    let u = record_new_node t parent run_id variant in
    let one_more = length-record_new_node t parent run_id variant in
    let grown : suc (length t) ≡ length u = omega arith in
    apply_ops-AllShallow u ops later (
      subst (λ k. AllShallow k u) grown
        (record_new_node-AllShallow (length t) t parent run_id variant now.1 h))
apply_ops-AllShallow t (credited leaf reward ∷ ops) (now, later) h =
    let u = (backprop t leaf reward).0 in
    apply_ops-AllShallow u ops later (
      subst (λ k. AllShallow k u) (sym (length-backprop t leaf reward))
        (backprop-AllShallow (length t) t leaf reward h))

new_tree-AllShallow : AllShallow 1 new_tree
new_tree-AllShallow c m e = leaf-Shallow 1 new_tree m (go (id_eq root_id c) e)
  where
    go :
        (b : Bool)
        → (if b then some (new_node root_id none []) else none) ≡ some m
        → m.children ≡ []
    go true h = cc h
    go false h = absurd (cc h)

-- After every sequence of expansions and credits on the new tree, in which each expands a node
-- that is there under a key that is new, or credits a node that is there: the descent of _select
-- from a node of the tree ends within one round more than the tree has nodes.
pub select-returns :
    (m : Libm) (c : Float) (ops : List Op) (n : Node) (id : NodeId)
    → AllAllowed new_tree ops
    → find (apply_ops new_tree ops) id ≡ some n
    → (r : Raises Node) × (select
          (length (apply_ops new_tree ops) + 1)
          m
          c
          (apply_ops new_tree ops)
          n
        ≡ some r)
select-returns m c ops n id allowed found =
    select-enough (length (apply_ops new_tree ops) + 1) (length (apply_ops new_tree ops)) m c
      (apply_ops new_tree ops) n
      (apply_ops-AllShallow new_tree ops allowed new_tree-AllShallow id n found) (omega arith)
