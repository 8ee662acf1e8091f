-- ===== src/Mcts/Line.antt =====
-- mcts.py: the tree as the keys of its nodes and of their children, and trees that are a line.
use termiclaw.Prelude.{
  ℕ, zero, suc, max, Text, List, [], ◌∷◌, ◌++◌, Option, none, some, true, false, ◌≡◌, refl, sym, ap,
  ◌∙◌, subst, ◌⊎◌, All, length, inl, inr, Bool-cases, Option-cases,
}
use termiclaw.Float.{Float}
use termiclaw.Errors.{Raises, returns, raises}
use termiclaw.Mcts.{
  NodeId, Node, Tree, Libm, new_node, id_eq, find, update, credit, climb, backprop, record_new_node,
  select, nodes_of, best_on, ucb1,
}
use termiclaw.Mcts.Lookup.{id_eq_refl}
use termiclaw.Mcts.History.{key_of}
use termiclaw.Mcts.Climb.{climb_missing, climb_top, climb_up}

abbrev pub Shape : Type 0
Shape = List (NodeId × List NodeId)

abbrev pub shape : Tree → Shape
shape [] = []
shape (n ∷ t) = (n.id, n.children) ∷ shape t

-- Each node but the last has one child, the next.
abbrev pub line : List NodeId → Shape
line [] = []
line (i ∷ []) = (i, []) ∷ []
line (i ∷ j ∷ ids) = (i, j ∷ []) ∷ line (j ∷ ids)

-- No key stands in the list twice.
abbrev pub Other : NodeId → NodeId → Type 0
Other i j = id_eq i j ≡ false

abbrev pub AllOther : List NodeId → Type 0
AllOther [] = Unit {0}
AllOther (i ∷ ids) = All (Other i) ids × AllOther ids

shape-update :
    (t : Tree) (j : NodeId) (f : Node → Node)
    → ((n : Node) → (f n).id ≡ n.id)
    → ((n : Node) → (f n).children ≡ n.children)
    → shape (update t j f) ≡ shape t
shape-update [] j f keeps same = refl
shape-update (n ∷ t) j f keeps same = elim (Bool-cases (id_eq n.id j)) [
  | inl here ↦ rw (here, keeps n, same n) refl
  | inr other ↦ rw other (ap (λ s. (n.id, n.children) ∷ s) (shape-update t j f keeps same))
]

shape-credit :
    (t : Tree) (j : NodeId) (reward : Float) (leaf : Text)
    → shape (update t j (credit reward leaf)) ≡ shape t
unfolding credit
shape-credit t j reward leaf = shape-update t j (credit reward leaf) (λ n. refl) (λ n. refl)

shape-climb :
    (fuel : ℕ) (t : Tree) (j : NodeId) (reward : Float) (leaf : Text)
    → shape (climb fuel t j reward leaf).0 ≡ shape t
shape-climb zero t j reward leaf = unfold climb in refl
shape-climb (suc fuel) t j reward leaf = elim (Option-cases (find t j)) [
  | inl missing ↦ rw (climb_missing fuel t j reward leaf missing) refl
  | inr (n, found) ↦ elim (Option-cases n.parent) [
    | inl top ↦ rw (climb_top fuel t j reward leaf n found top) (shape-credit t j reward leaf)
    | inr (p, up) ↦ rw (climb_up fuel t j reward leaf n p found up) (
        shape-climb fuel (update t j (credit reward leaf)) p reward leaf
        ∙ shape-credit t j reward leaf)
  ]
]

-- The last key of a list that starts with `i`.
abbrev pub last_of : NodeId → List NodeId → NodeId
last_of i [] = i
last_of i (j ∷ ids) = last_of j ids

All-last_of :
    (P : NodeId → Type 0) (i : NodeId) (ids : List NodeId) → All P (i ∷ ids) → P (last_of i ids)
All-last_of P i [] h = h.0
All-last_of P i (j ∷ ids) h = All-last_of P j ids h.1

-- `parent_node.children.append(node.id)`
abbrev pub linked : NodeId → Node → Node
linked key p = record p { children = p.children ++ key ∷ [] }

no_line : (i : NodeId) (ids : List NodeId) → ◌≡◌ {A = Shape} [] (line (i ∷ ids)) → ⊥
no_line i [] e = cc e
no_line i (j ∷ ids) e = cc e

-- A child of the last node makes the line one longer.
shape-grown :
    (i : NodeId) (ids : List NodeId) (t : Tree) (key : NodeId) (fresh : Node)
    → shape t ≡ line (i ∷ ids)
    → AllOther (i ∷ ids)
    → fresh.id ≡ key
    → fresh.children ≡ []
    → shape (update t (last_of i ids) (linked key) ++ fresh ∷ []) ≡ line (i ∷ ids ++ key ∷ [])
shape-grown i ids [] key fresh e apart named leaf = absurd (no_line i ids e)
shape-grown i [] (n ∷ []) key fresh e apart named leaf =
    let named_i : n.id ≡ i = cc e in
    let bare : n.children ≡ [] = cc e in
    let here : id_eq n.id i ≡ true = ap (λ x. id_eq x i) named_i ∙ id_eq_refl i in
    rw (here, named, leaf)
      (ap (λ x. (n.id, x ++ key ∷ []) ∷ (key, []) ∷ []) bare
        ∙ ap (λ x. (x, key ∷ []) ∷ (key, []) ∷ []) named_i)
shape-grown i [] (n ∷ m ∷ t) key fresh e apart named leaf = absurd (cc e)
shape-grown i (j ∷ ids) (n ∷ t) key fresh e apart named leaf =
    let named_i : n.id ≡ i = cc e in
    let one : n.children ≡ j ∷ [] = cc e in
    let rest : shape t ≡ line (j ∷ ids) = cc e in
    let other : id_eq n.id (last_of j ids) ≡ false =
      ap (λ x. id_eq x (last_of j ids)) named_i ∙ All-last_of (Other i) j ids apart.0 in
    rw other (
      ap (λ s. (n.id, n.children) ∷ s) (shape-grown j ids t key fresh rest apart.1 named leaf)
      ∙ ap (λ x. (n.id, x) ∷ line (j ∷ ids ++ key ∷ [])) one
      ∙ ap (λ x. (x, j ∷ []) ∷ line (j ∷ ids ++ key ∷ [])) named_i)

-- An expansion of the last node, and its credit.
pub shape-expanded :
    (i : NodeId) (ids : List NodeId) (t : Tree) (run_id variant : Text) (reward : Float)
    → shape t ≡ line (i ∷ ids)
    → AllOther (i ∷ ids)
    → shape (backprop (record_new_node t (last_of i ids) run_id variant) (key_of run_id) reward).0
      ≡ line (i ∷ ids ++ key_of run_id ∷ [])
unfolding record_new_node backprop
shape-expanded i ids t run_id variant reward e apart =
    let u =
      update t (last_of i ids) (linked (key_of run_id))
      ++ new_node (key_of run_id) (some (last_of i ids)) variant ∷ [] in
    shape-climb (length u) u (key_of run_id) reward run_id
    ∙ shape-grown i ids t (key_of run_id) (new_node (key_of run_id) (some (last_of i ids)) variant)
        e apart refl refl

-- The node of a key of the line: with the one child that is next, or with none.
abbrev pub Next : Tree → NodeId → List NodeId → Type 0
Next t i [] = (n : Node) × (find t i ≡ some n) × (n.id ≡ i) × (n.children ≡ [])
Next t i (j ∷ ids) =
    ((n : Node) × (find t i ≡ some n) × (n.id ≡ i) × (n.children ≡ j ∷ [])) × Next t j ids

Next-cons :
    (n : Node) (t : Tree) (i : NodeId) (ids : List NodeId)
    → All (Other n.id) (i ∷ ids)
    → Next t i ids
    → Next (n ∷ t) i ids
Next-cons n t i [] apart (m, found, named, bare) = (m, rw apart.0 found, named, bare)
Next-cons n t i (j ∷ ids) apart ((m, found, named, one), later) =
    ((m, rw apart.0 found, named, one), Next-cons n t j ids apart.1 later)

pub line-Next :
    (i : NodeId) (ids : List NodeId) (t : Tree)
    → shape t ≡ line (i ∷ ids)
    → AllOther (i ∷ ids)
    → Next t i ids
line-Next i ids [] e apart = absurd (no_line i ids e)
line-Next i [] (n ∷ []) e apart =
    let named : n.id ≡ i = cc e in
    let here : id_eq n.id i ≡ true = ap (λ x. id_eq x i) named ∙ id_eq_refl i in
    (n, rw here refl, named, cc e)
line-Next i [] (n ∷ m ∷ t) e apart = absurd (cc e)
line-Next i (j ∷ ids) (n ∷ t) e apart =
    let named : n.id ≡ i = cc e in
    let here : id_eq n.id i ≡ true = ap (λ x. id_eq x i) named ∙ id_eq_refl i in
    let rest : shape t ≡ line (j ∷ ids) = cc e in
    (
      (n, rw here refl, named, cc e),
      Next-cons n t j ids (subst (λ x. All (Other x) (j ∷ ids)) (sym named) apart.0)
          (line-Next j ids t rest apart.1),
    )

pub Next-here :
    (t : Tree) (i : NodeId) (ids : List NodeId) → Next t i ids → (n : Node) × (find t i ≡ some n)
Next-here t i [] (n, found, _, _) = (n, found)
Next-here t i (j ∷ ids) ((n, found, _, _), _) = (n, found)

nodes_of-one :
    (t : Tree) (j : NodeId) (y : Node) → find t j ≡ some y → nodes_of t (j ∷ []) ≡ returns (y ∷ [])
nodes_of-one t j y found = rw (found, nodes_of) refl

-- One round of the descent, by the children found.
abbrev descended : ℕ → Libm → Float → Tree → Node → Raises (List Node) → Option (Raises Node)
descended fuel m c t n o = elim o [
  | raises x ↦ some (raises x)
  | returns [] ↦ some (returns n)
  | returns (b ∷ bs) ↦
      select fuel m c t
        (best_on b (ucb1 m b (max n.visits 1) c) (λ k. ucb1 m k (max n.visits 1) c) bs)
]

-- The descent of `_select` reaches the last node of a line, if its fuel lasts.
pub select-Next :
    (fuel : ℕ) (m : Libm) (c : Float) (t : Tree) (i : NodeId) (ids : List NodeId) (n : Node)
    → Next t i ids
    → find t i ≡ some n
    → (select fuel m c t n ≡ none)
      ⊎ ((x : Node) × (select fuel m c t n ≡ some (returns x)) × (x.id ≡ last_of i ids))
unfolding select
select-Next zero m c t i ids n next found = inl refl
select-Next (suc fuel) m c t i [] n (x, there, named, bare) found =
    let same : x ≡ n = cc (there, found) in
    let leaf : n.children ≡ [] = subst (λ y. y.children ≡ []) same bare in
    inr
      (n, ap (λ cs. descended fuel m c t n (nodes_of t cs)) leaf, subst (λ y. y.id ≡ i) same named)
select-Next (suc fuel) m c t i (j ∷ ids) n ((x, there, named, one), later) found =
    let same : x ≡ n = cc (there, found) in
    let kids : n.children ≡ j ∷ [] = subst (λ y. y.children ≡ j ∷ []) same one in
    let (y, child) = Next-here t j ids later in
    let step : descended fuel m c t n (nodes_of t n.children) ≡ select fuel m c t y =
      ap (λ cs. descended fuel m c t n (nodes_of t cs)) kids
      ∙ ap (descended fuel m c t n) (nodes_of-one t j y child) in
    elim (select-Next fuel m c t j ids y later child) [
      | inl out ↦ inl (step ∙ out)
      | inr (z, e, last) ↦ inr (z, step ∙ e, last)
    ]
