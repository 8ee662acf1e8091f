-- ===== src/Mcts/Climb.antt =====
-- mcts.py: the way up of `_backprop`.
use termiclaw.Prelude.{
  ℕ, zero, suc, ◌<◌, Text, [], ◌∷◌, none, some, false, ◌≡◌, refl, ap, ◌∙◌, arith, length,
  if◌then◌else◌, inl, inr, Bool-cases, Option-cases,
}
use termiclaw.Float.{Float}
use termiclaw.Mcts.{NodeId, Node, Tree, root_id, id_eq, find, update, credit, climb}
use termiclaw.Mcts.Lookup.{id_eq→eq, changed, find-update, length-update}
use termiclaw.Mcts.History.{parent_of, Up, view_in, view-update, Up-kept}

module _ (fuel : ℕ) (t : Tree) (j : NodeId) (reward : Float) (leaf : Text) where
  pub climb_missing : find t j ≡ none → climb (suc fuel) t j reward leaf ≡ (t, [])
  unfolding climb
  climb_missing missing = rw (missing, climb) refl

  pub climb_top :
      (n : Node)
      → find t j ≡ some n
      → n.parent ≡ none
      → climb (suc fuel) t j reward leaf ≡ (update t j (credit reward leaf), j ∷ [])
  unfolding climb
  climb_top n found top = ground (arith, found, top)

  pub climb_up :
      (n : Node) (p : NodeId)
      → find t j ≡ some n
      → n.parent ≡ some p
      → climb (suc fuel) t j reward leaf ≡ (
        (climb fuel (update t j (credit reward leaf)) p reward leaf).0,
        j ∷ (climb fuel (update t j (credit reward leaf)) p reward leaf).1,
      )
  unfolding climb
  climb_up n p found up = ground (arith, found, up)

pub credit-id : (reward : Float) (leaf : Text) (n : Node) → (credit reward leaf n).id ≡ n.id
unfolding credit
credit-id reward leaf n = refl

parent_of-credit :
    (t : Tree) (j : NodeId) (reward : Float) (leaf : Text) (id : NodeId)
    → parent_of (update t j (credit reward leaf)) id ≡ parent_of t id
unfolding credit
parent_of-credit t j reward leaf id =
    view-update (λ n. n.parent) t j (credit reward leaf) (λ n. refl) (λ n. refl) id

-- The way up changes no field that a credit leaves alone.
pub climb-view :
    {X : Type 0} (g : Node → X) (fuel : ℕ) (t : Tree) (j : NodeId) (reward : Float) (leaf : Text)
    → ((n : Node) → g (credit reward leaf n) ≡ g n)
    → (id : NodeId) → view_in g (find (climb fuel t j reward leaf).0 id) ≡ view_in g (find t id)
climb-view g zero t j reward leaf same id = unfold climb in refl
climb-view g (suc fuel) t j reward leaf same id =
    let here : view_in g (find (update t j (credit reward leaf)) id) ≡ view_in g (find t id) =
      view-update g t j (credit reward leaf) (credit-id reward leaf) same id in
    elim (Option-cases (find t j)) [
      | inl missing ↦ rw (climb_missing fuel t j reward leaf missing) refl
      | inr (n, found) ↦ elim (Option-cases n.parent) [
        | inl top ↦ rw (climb_top fuel t j reward leaf n found top) here
        | inr (p, up) ↦
            rw (climb_up fuel t j reward leaf n p found up)
              (climb-view g fuel (update t j (credit reward leaf)) p reward leaf same id ∙ here)
      ]
    ]

pub climb-same :
    (fuel : ℕ) (t : Tree) (j : NodeId) (reward : Float) (leaf : Text) (id : NodeId)
    → parent_of (climb fuel t j reward leaf).0 id ≡ parent_of t id
unfolding credit
climb-same fuel t j reward leaf id = climb-view (λ n. n.parent) fuel t j reward leaf (λ n. refl) id

pub climb-children :
    (fuel : ℕ) (t : Tree) (j : NodeId) (reward : Float) (leaf : Text) (id : NodeId)
    → view_in (λ n. n.children) (find (climb fuel t j reward leaf).0 id)
      ≡ view_in (λ n. n.children) (find t id)
unfolding credit
climb-children fuel t j reward leaf id =
    climb-view (λ n. n.children) fuel t j reward leaf (λ n. refl) id

not_root :
    (t : Tree) (j p : NodeId) (x : Node)
    → find t root_id ≡ some x
    → x.parent ≡ none
    → parent_of t j ≡ some (some p)
    → id_eq j root_id ≡ false
not_root t j p x root top parent = elim (Bool-cases (id_eq j root_id)) [
  | inr apart ↦ apart
  | inl here ↦ absurd (cc (ap (parent_of t) (id_eq→eq j root_id here), root, top, parent))
]

pub length-climb :
    (fuel : ℕ) (t : Tree) (j : NodeId) (reward : Float) (leaf : Text)
    → length (climb fuel t j reward leaf).0 ≡ length t
length-climb zero t j reward leaf = unfold climb in refl
length-climb (suc fuel) t j reward leaf = elim (Option-cases (find t j)) [
  | inl missing ↦ rw (climb_missing fuel t j reward leaf missing) refl
  | inr (n, found) ↦ elim (Option-cases n.parent) [
    | inl top ↦
        rw (climb_top fuel t j reward leaf n found top) (length-update t j (credit reward leaf))
    | inr (p, up) ↦ rw (climb_up fuel t j reward leaf n p found up) (
        length-climb fuel (update t j (credit reward leaf)) p reward leaf
        ∙ length-update t j (credit reward leaf))
  ]
]

-- With fuel for the way up, the root is credited once.
pub climb-credits :
    (fuel k : ℕ) (t : Tree) (j : NodeId) (reward : Float) (leaf : Text) (x : Node)
    → find t root_id ≡ some x
    → x.parent ≡ none
    → Up t j k
    → k < fuel
    → find (climb fuel t j reward leaf).0 root_id ≡ some (credit reward leaf x)
climb-credits zero k t j reward leaf x root top way less = absurd (omega arith)
climb-credits (suc fuel) zero t j reward leaf x root top (here, _) less =
    let found : find t j ≡ some x = ap (find t) here ∙ root in
    rw (climb_top fuel t j reward leaf x found top) (
      find-update t j root_id (credit reward leaf) (credit-id reward leaf)
      ∙ ap
          (λ i.
            if id_eq i root_id
            then changed (credit reward leaf) (find t root_id)
            else find t root_id)
          here
      ∙ ap (changed (credit reward leaf)) root)
climb-credits (suc fuel) (suc k) t j reward leaf x root top (p, parent, way) less =
    elim (Option-cases (find t j)) [
      | inl missing ↦ absurd (cc (missing, parent))
      | inr (n, found) ↦
          let t' = update t j (credit reward leaf) in
          let up : n.parent ≡ some p = cc (found, parent) in
          let apart : id_eq j root_id ≡ false = not_root t j p x root top parent in
          let same : find t' root_id ≡ some x =
            find-update t j root_id (credit reward leaf) (credit-id reward leaf) ∙ rw apart root in
          rw (climb_up fuel t j reward leaf n p found up) (
            climb-credits fuel k t' p reward leaf x same top
              (Up-kept t t' (λ id q h. parent_of-credit t j reward leaf id ∙ h) p k way)
              (omega arith))
    ]
