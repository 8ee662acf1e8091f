-- ===== src/Mcts/Lookup.antt =====
-- Lookups in the tree of mcts.py after a change of one node.
use termiclaw.Prelude.{
  text_eq→eq, text_eq_refl, [], ◌∷◌, ◌++◌, Option, none, some, true, false, ◌≡◌, refl, sym, ap, ◌∙◌,
  arith, length, if◌then◌else◌, inl, inr, Bool-cases,
}
use termiclaw.Mcts.{NodeId, Node, Tree, id_eq, find, update}

pub id_eq→eq : (a b : NodeId) → id_eq a b ≡ true → a ≡ b
id_eq→eq a b h = ground (arith, text_eq→eq a.run_id b.run_id)

pub id_eq_refl : (a : NodeId) → id_eq a a ≡ true
id_eq_refl a = ground (arith, text_eq_refl a.run_id)

abbrev pub changed : (Node → Node) → Option Node → Option Node
changed f none = none
changed f (some n) = some (f n)

at_head :
    (n : Node) (t : Tree) (id j : NodeId) (f : Node → Node)
    → n.id ≡ id
    → (if id_eq n.id j then some (f n) else find t j)
      ≡ (if id_eq id j then changed f (find (n ∷ t) j) else find (n ∷ t) j)
at_head n t id j f e =
    rw (← e) (elim (Bool-cases (id_eq n.id j)) [
      | inl found ↦ rw found refl
      | inr further ↦ rw further refl
    ])

differs : (a b c : NodeId) → id_eq a b ≡ false → id_eq a c ≡ true → id_eq b c ≡ false
differs a b c ab ac = elim (Bool-cases (id_eq b c)) [
  | inr apart ↦ apart
  | inl bc ↦
      let e : a ≡ b = id_eq→eq a c ac ∙ sym (id_eq→eq b c bc) in
      absurd (cc (ab, ap (λ x. id_eq x b) e, id_eq_refl b))
]

pub find-update :
    (t : Tree) (id j : NodeId) (f : Node → Node)
    → ((n : Node) → (f n).id ≡ n.id)
    → find (update t id f) j ≡ (if id_eq id j then changed f (find t j) else find t j)
find-update [] id j f keeps = ground arith
find-update (n ∷ t) id j f keeps = elim (Bool-cases (id_eq n.id id)) [
  | inl here ↦ rw here (
      ap (λ x. if id_eq x j then some (f n) else find t j) (keeps n)
      ∙ at_head n t id j f (id_eq→eq n.id id here))
  | inr other ↦ elim (Bool-cases (id_eq n.id j)) [
    | inl found ↦ rw (other, found, differs n.id id j other found) refl
    | inr further ↦ rw (other, further) (find-update t id j f keeps)
  ]
]

pub length-update : (t : Tree) (id : NodeId) (f : Node → Node) → length (update t id f) ≡ length t
length-update [] id f = refl
length-update (n ∷ t) id f = ground (arith, length-update t id f)

pub find-append :
    (t u : Tree) (id : NodeId)
    → find (t ++ u) id ≡ elim (find t id) [ none ↦ find u id | some n ↦ some n ]
find-append [] u id = refl
find-append (n ∷ t) u id = elim (Bool-cases (id_eq n.id id)) [
  | inl same ↦ rw same refl
  | inr other ↦ rw other (find-append t u id)
]
