-- ===== src/Trajectory/Newest.antt =====
-- trajectory.py: the order of list_runs.
use mathlib.Core.List.{Perm}
use mathlib.Core.List.Perm
use termiclaw.Prelude.{
  ℤ, Text, List, [], ◌∷◌, some, true, false, ◌≡◌, refl, arith, inl, inr, Bool-cases,
}
use termiclaw.Errors.{Raises, returns, raises}
use termiclaw.Model.{RunInfo}
use termiclaw.Python.{Builtins}
use termiclaw.Trajectory.{RunDir}
use termiclaw.Trajectory.Runs.{
  text_lt, insert_run_info, newest_first, sorted_infos, infos_of, list_runs,
}

text_lt_asym : (s t : Text) → text_lt s t ≡ true → text_lt t s ≡ false
text_lt_asym s [] h = absurd (cc h)
text_lt_asym [] (d ∷ t) h = refl
text_lt_asym (c ∷ s) (d ∷ t) h = ground (arith, text_lt_asym s t)

-- No run started later than the one before it.
abbrev Follows : RunInfo → List RunInfo → Type 0
Follows r [] = Unit {0}
Follows r (q ∷ qs) = text_lt r.started_at q.started_at ≡ false

abbrev pub NewestFirst : List RunInfo → Type 0
NewestFirst [] = Unit {0}
NewestFirst (r ∷ rs) = Follows r rs × NewestFirst rs

insert-Follows :
    (p r : RunInfo) (rs : List RunInfo)
    → text_lt p.started_at r.started_at ≡ false
    → Follows p rs
    → Follows p (insert_run_info r rs)
insert-Follows p r [] apart h = apart
insert-Follows p r (q ∷ qs) apart h = elim (Bool-cases (text_lt r.started_at q.started_at)) [
  | inl later ↦ rw later h
  | inr first ↦ rw first apart
]

insert-NewestFirst :
    (r : RunInfo) (rs : List RunInfo) → NewestFirst rs → NewestFirst (insert_run_info r rs)
insert-NewestFirst r [] h = (tt, tt)
insert-NewestFirst r (q ∷ qs) (now, later) = elim (Bool-cases (text_lt r.started_at q.started_at)) [
  | inr first ↦ rw first (first, (now, later))
  | inl after ↦ rw after (
    insert-Follows q r qs (text_lt_asym r.started_at q.started_at after) now,
    insert-NewestFirst r qs later,
  )
]

newest_first-NewestFirst : (rs : List RunInfo) → NewestFirst (newest_first rs)
newest_first-NewestFirst [] = tt
newest_first-NewestFirst (r ∷ rs) =
    insert-NewestFirst r (newest_first rs) (newest_first-NewestFirst rs)

insert-Perm : (r : RunInfo) (rs : List RunInfo) → Perm (insert_run_info r rs) (r ∷ rs)
insert-Perm r [] = Perm.rfl
insert-Perm r (q ∷ qs) = elim (Bool-cases (text_lt r.started_at q.started_at)) [
  | inr first ↦ rw first Perm.rfl
  | inl after ↦ rw after (Perm.trans (Perm.cons q (insert-Perm r qs)) (Perm.swap r q qs))
]

newest_first-Perm : (rs : List RunInfo) → Perm (newest_first rs) rs
newest_first-Perm [] = Perm.rfl
newest_first-Perm (r ∷ rs) =
    Perm.trans (insert-Perm r (newest_first rs)) (Perm.cons r (newest_first-Perm rs))

-- What the directories give, in whatever order, and what is returned of it.
abbrev pub Ordered : Raises (List RunInfo) → Raises (List RunInfo) → Type 0
Ordered (raises x) out = out ≡ raises x
Ordered (returns found) (raises x) = ⊥
Ordered (returns found) (returns infos) = Perm infos found × NewestFirst infos

-- If reading a run of the directory raises, list_runs raises the same; otherwise it returns a
-- permutation of the runs that were read, in which no run started later than the one before it.
pub list_runs-Ordered :
    (py : Builtins) (seconds : Text → Text → Raises ℤ) (ds : List RunDir)
    → Ordered (infos_of py seconds ds) (list_runs py seconds (some ds))
unfolding list_runs
list_runs-Ordered py seconds ds = by_infos (infos_of py seconds ds)
  where
    by_infos : (o : Raises (List RunInfo)) → Ordered o (sorted_infos o)
    by_infos (raises x) = refl
    by_infos (returns found) = (newest_first-Perm found, newest_first-NewestFirst found)
