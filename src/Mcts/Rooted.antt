-- ===== src/Mcts/Rooted.antt =====
-- mcts.py: the tree stays a tree under what the workers do.
use termiclaw.Prelude.{
  suc, ◌+◌, Text, [], ◌∷◌, ◌++◌, Option, none, some, Bool, true, false, ◌≡◌, refl, sym, ap, ◌∙◌,
  arith, length, length-append, if◌then◌else◌, inl, inr, Bool-cases, Option-cases,
}
use termiclaw.Float.{Float}
use termiclaw.Mcts.{
  NodeId, Node, Tree, root_id, new_node, new_tree, id_eq, find, update, climb, backprop,
  record_new_node,
}
use termiclaw.Mcts.Lookup.{id_eq→eq, length-update, find-append}
use termiclaw.Mcts.History.{
  Op, expanded, credited, apply_op, key_of, parent_in, parent_of, Allowed, IsRooted, view-update,
  Up-kept,
}
use termiclaw.Mcts.Climb.{climb-same, length-climb}

backprop-IsRooted :
    (t : Tree) (leaf : NodeId) (reward : Float) → IsRooted t → IsRooted (backprop t leaf reward).0
unfolding backprop
backprop-IsRooted t leaf reward h =
    let same = climb-same (length t) t leaf reward leaf.run_id in
    record {
      root = same root_id ∙ h.root;
      ways = λ id q e.
          let way = h.ways id q (sym (same id) ∙ e) in
          (
            way.0,
            rw (length-climb (length t) t leaf reward leaf.run_id) way.1,
            Up-kept t (climb (length t) t leaf reward leaf.run_id).0 (λ i r given. same i ∙ given)
                id way.0 way.2,
          );
    }

parent_of-append :
    (u : Tree) (n : Node) (id : NodeId)
    → parent_of (u ++ n ∷ []) id ≡ elim (parent_of u id) [
      | none ↦ if id_eq n.id id then some n.parent else none
      | some q ↦ some q
    ]
parent_of-append u n id = rw (find-append u (n ∷ []) id) (go (find u id))
  where
    alone :
        (b : Bool) → parent_in (if b then some n else none) ≡ (if b then some n.parent else none)
    alone true = refl
    alone false = refl

    go :
        (o : Option Node)
        → parent_in (elim o [ none ↦ if id_eq n.id id then some n else none | some m ↦ some m ])
          ≡ elim (parent_in o) [
            | none ↦ if id_eq n.id id then some n.parent else none
            | some q ↦ some q
          ]
    go none = alone (id_eq n.id id)
    go (some m) = refl

-- The tree after `_record_new_node`: who was there keeps its parent, and the new node has the
-- given one.
parent_of-record_new_node :
    (t : Tree) (parent : NodeId) (run_id variant : Text) (id : NodeId)
    → parent_of (record_new_node t parent run_id variant) id ≡ elim (parent_of t id) [
      | none ↦ if id_eq (key_of run_id) id then some (some parent) else none
      | some q ↦ some q
    ]
unfolding record_new_node
parent_of-record_new_node t parent run_id variant id =
    let link : Node → Node = λ p. record p { children = p.children ++ key_of run_id ∷ [] } in
    parent_of-append (update t parent link) (new_node (key_of run_id) (some parent) variant) id
    ∙ ap
        (λ o. elim o [
          | none ↦ if id_eq (key_of run_id) id then some (some parent) else none
          | some q ↦ some q
        ])
        (view-update (λ n. n.parent) t parent link (λ n. refl) (λ n. refl) id)

pub length-record_new_node :
    (t : Tree) (parent : NodeId) (run_id variant : Text)
    → length (record_new_node t parent run_id variant) ≡ length t + 1
unfolding record_new_node
length-record_new_node t parent run_id variant =
    let link : Node → Node = λ p. record p { children = p.children ++ key_of run_id ∷ [] } in
    length-append (update t parent link) (new_node (key_of run_id) (some parent) variant ∷ [])
    ∙ ap (λ k. k + 1) (length-update t parent link)

record_new_node-IsRooted :
    (t : Tree) (parent : NodeId) (run_id variant : Text)
    → IsRooted t
    → Allowed t (expanded parent run_id variant)
    → IsRooted (record_new_node t parent run_id variant)
record_new_node-IsRooted t parent run_id variant h ((q, there), _) =
    let u = record_new_node t parent run_id variant in
    let kept : (id : NodeId) (r : Option NodeId)
        → parent_of t id ≡ some r
        → parent_of u id ≡ some r =
      λ id r e. rw (parent_of-record_new_node t parent run_id variant id, e) refl in
    record {
      root = kept root_id none h.root;
      ways = λ id r e. elim (Option-cases (parent_of t id)) [
        | inr (s, was) ↦
            let way = h.ways id s was in
            (
              way.0,
              rw (length-record_new_node t parent run_id variant) (omega arith),
              Up-kept t u kept id way.0 way.2,
            )
        | inl absent ↦
            let way = h.ways parent q there in
            let here : id_eq (key_of run_id) id ≡ true =
              elim (Bool-cases (id_eq (key_of run_id) id)) [
                | inl same ↦ same
                | inr other ↦ absurd (
                    cc (
                      ap
                          (λ o. elim o [
                            | none ↦ if id_eq (key_of run_id) id then some (some parent) else none
                            | some s ↦ some s
                          ])
                          absent,
                      ap (λ b. if b then some (some parent) else none) other,
                      parent_of-record_new_node t parent run_id variant id,
                      e,
                    ))
              ] in
            (
              suc way.0,
              rw (length-record_new_node t parent run_id variant) (omega arith),
              (
                parent,
                rw (parent_of-record_new_node t parent run_id variant id, absent)
                    (ap (λ b. if b then some (some parent) else none) here),
                Up-kept t u kept parent way.0 way.2,
              ),
            )
      ];
    }

-- An expansion of a node that is there under a new key, and a credit of a node that is there,
-- keep the tree a tree: the root has no parent, and from every node the parents lead to the root,
-- past fewer nodes than the tree has.
pub apply_op-IsRooted : (t : Tree) (op : Op) → IsRooted t → Allowed t op → IsRooted (apply_op t op)
apply_op-IsRooted t (expanded parent run_id variant) h allowed =
    record_new_node-IsRooted t parent run_id variant h allowed
apply_op-IsRooted t (credited leaf reward) h allowed = backprop-IsRooted t leaf reward h

pub new_tree-IsRooted : IsRooted new_tree
new_tree-IsRooted = record {
  root = refl;
  ways = λ id q e. elim (Bool-cases (id_eq root_id id)) [
    | inl here ↦ (0, omega arith, (sym (id_eq→eq root_id id here), ap root_or_none here))
    | inr other ↦ absurd (cc (e, ap root_or_none other))
  ];
}
  where
    root_or_none : Bool → Option (Option NodeId)
    root_or_none b = parent_in (if b then some (new_node root_id none []) else none)
