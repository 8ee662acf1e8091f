-- ===== src/Mcts/Playout/Depth.antt =====
-- mcts.py: how deep the tree of a search can get, and the rounds of `_select`.
use termiclaw.Prelude.{
  ℕ, zero, suc, ◌<◌, max, List, [], ◌∷◌, Option, none, some, ◌≡◌, refl, arith, inl, inr, Bool-cases,
}
use termiclaw.Float.{Float, ltb_float}
use termiclaw.Errors.{Raises, returns, raises, key_error}
use termiclaw.Mcts.{NodeId, Node, Tree, Libm, ucb1, best_on, nodes_of, select, find}

-- A property of every child that is in the tree.
abbrev pub Kids : (Node → Type 0) → Tree → List NodeId → Type 0
Kids P t [] = Unit {0}
Kids P t (c ∷ cs) = ((m : Node) → find t c ≡ some m → P m) × Kids P t cs

-- No way down from a node has more than `k` edges.
abbrev pub Shallow : ℕ → Tree → Node → Type 0
Shallow zero t n = n.children ≡ []
Shallow (suc k) t n = Kids (Shallow k t) t n.children

abbrev AllNodes : (Node → Type 0) → List Node → Type 0
AllNodes P [] = Unit {0}
AllNodes P (n ∷ ns) = P n × AllNodes P ns

pub leaf-Shallow : (k : ℕ) (t : Tree) (n : Node) → n.children ≡ [] → Shallow k t n
leaf-Shallow zero t n e = e
leaf-Shallow (suc k) t n e = rw e tt

best_on-kept :
    (P : Node → Type 0) (best : Node) (score : Float) (key : Node → Float) (ns : List Node)
    → P best
    → AllNodes P ns
    → P (best_on best score key ns)
best_on-kept P best score key [] now later = now
best_on-kept P best score key (n ∷ ns) now (next, later) =
    elim (Bool-cases (ltb_float score (key n))) [
      | inl more ↦ rw more (best_on-kept P n (key n) key ns next later)
      | inr less ↦ rw less (best_on-kept P best score key ns now later)
    ]

abbrev AllReturned : (Node → Type 0) → Raises (List Node) → Type 0
AllReturned P (raises x) = Unit {0}
AllReturned P (returns ns) = AllNodes P ns

nodes_of-AllReturned :
    (P : Node → Type 0) (t : Tree) (ids : List NodeId)
    → Kids P t ids
    → AllReturned P (nodes_of t ids)
nodes_of-AllReturned P t [] h = tt
nodes_of-AllReturned P t (id ∷ ids) (now, later) =
    go (find t id) now (nodes_of t ids) (nodes_of-AllReturned P t ids later)
  where
    go :
        (o : Option Node)
        → ((m : Node) → o ≡ some m → P m)
        → (rest : Raises (List Node)) → AllReturned P rest
        → AllReturned P (elim o [
          | none ↦ raises key_error
          | some n ↦ elim rest [ raises x ↦ raises x | returns ns ↦ returns (n ∷ ns) ]
        ])
    go none now rest h = tt
    go (some n) now (raises x) h = tt
    go (some n) now (returns ns) h = (now n refl, h)

-- In a tree of depth k the loop of `_select` ends after k rounds.
pub select-enough :
    (fuel k : ℕ) (m : Libm) (c : Float) (t : Tree) (n : Node)
    → Shallow k t n
    → k < fuel
    → (r : Raises Node) × (select fuel m c t n ≡ some r)
unfolding select
select-enough zero k m c t n h less = absurd (omega arith)
select-enough (suc fuel) zero m c t n h less = (returns n, rw h refl)
select-enough (suc fuel) (suc k) m c t n h less =
    go (λ b hb. select-enough fuel k m c t b hb (omega arith)) (nodes_of t n.children)
      (nodes_of-AllReturned (Shallow k t) t n.children h)
  where
    go :
        ((b : Node) → Shallow k t b → (r : Raises Node) × (select fuel m c t b ≡ some r))
        → (o : Raises (List Node)) → AllReturned (Shallow k t) o
        → (r : Raises Node) × ((elim o [
          | raises x ↦ some (raises x)
          | returns [] ↦ some (returns n)
          | returns (b ∷ bs) ↦
              select fuel m c t
                (best_on b (ucb1 m b (max n.visits 1) c) (λ x. ucb1 m x (max n.visits 1) c) bs)
        ])
            ≡ some r)
    go again (raises x) all = (raises x, refl)
    go again (returns []) all = (returns n, refl)
    go again (returns (b ∷ bs)) all =
        again (best_on b (ucb1 m b (max n.visits 1) c) (λ x. ucb1 m x (max n.visits 1) c) bs) (
          best_on-kept (Shallow k t) b (ucb1 m b (max n.visits 1) c)
            (λ x. ucb1 m x (max n.visits 1) c) bs all.0 all.1)
