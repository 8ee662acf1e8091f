-- ===== src/Database/Schema/Settled.antt =====
-- db.py: the scripts of init_db settle the tables of every file, and settle them once.
use termiclaw.Prelude.{
  Text, codes, text_eq, text_eq→eq, text_eq_refl, one_of, List, [], ◌∷◌, ◌++◌, Bool, true, ◌&&◌,
  ◌||◌, ◌≡◌, refl, ap, ◌∙◌, arith, All, inl, inr, Bool-cases,
}
use termiclaw.Database.Schema.{
  Tables, Ddl, create_table, add_column, has_table, altered, run_ddl, run_script, schema,
  migrations, column_there,
}

-- A statement that has nothing left to do.
abbrev pub Settled : Tables → Ddl → Type 0
Settled ts (create_table name columns) = has_table name ts ≡ true
Settled ts (add_column table column) = column_there table column ts ≡ true

run_ddl-Settled : (ts : Tables) (d : Ddl) → Settled ts d → run_ddl ts d ≡ ts
run_ddl-Settled ts (create_table name columns) h = rw h refl
run_ddl-Settled [] (add_column table column) h = refl
run_ddl-Settled (t ∷ ts) (add_column table column) h = elim (Bool-cases (text_eq table t.0)) [
  | inl own ↦ rw (own, (rw own at h)) refl
  | inr other ↦
      rw other (ap (λ l. t ∷ l) (run_ddl-Settled ts (add_column table column) (rw other at h)))
]

pub run_script-Settled : (ds : List Ddl) (ts : Tables) → All (Settled ts) ds → run_script ts ds ≡ ts
run_script-Settled [] ts h = refl
run_script-Settled (d ∷ ds) ts (now, later) =
    ap (λ us. run_script us ds) (run_ddl-Settled ts d now) ∙ run_script-Settled ds ts later

pub one_of-append :
    (v c : Text) (vs : List Text) → one_of v vs ≡ true → one_of v (vs ++ c ∷ []) ≡ true
one_of-append v c [] h = absurd (cc h)
one_of-append v c (d ∷ vs) h = let ih = one_of-append v c vs in ground (arith, ih)

pub one_of-last : (v : Text) (vs : List Text) → one_of v (vs ++ v ∷ []) ≡ true
one_of-last v [] = rw (text_eq_refl v) refl
one_of-last v (d ∷ vs) = rw (one_of-last v vs) (ground arith)

has_table-append :
    (name : Text) (ts us : Tables) → has_table name ts ≡ true → has_table name (ts ++ us) ≡ true
has_table-append name [] us h = absurd (cc h)
has_table-append name (t ∷ ts) us h = let ih = has_table-append name ts us in ground (arith, ih)

has_table-altered :
    (name table column : Text) (ts : Tables)
    → has_table name (altered table column ts) ≡ has_table name ts
has_table-altered name table column [] = refl
has_table-altered name table column (t ∷ ts) = elim (Bool-cases (text_eq table t.0)) [
  | inl own ↦ elim (Bool-cases (one_of column t.1)) [
    | inl there ↦ rw (own, there) refl
    | inr lacking ↦ rw (own, lacking) refl
  ]
  | inr other ↦ rw other (ap (λ b. text_eq name t.0 || b) (has_table-altered name table column ts))
]

column_there-append :
    (table column : Text) (ts us : Tables)
    → column_there table column ts ≡ true
    → column_there table column (ts ++ us) ≡ true
column_there-append table column [] us h = absurd (cc h)
column_there-append table column (t ∷ ts) us h = elim (Bool-cases (text_eq table t.0)) [
  | inl own ↦ rw own (rw own at h)
  | inr other ↦ rw other (column_there-append table column ts us (rw other at h))
]

column_there-altered :
    (table column into added : Text) (ts : Tables)
    → column_there table column ts ≡ true
    → column_there table column (altered into added ts) ≡ true
column_there-altered table column into added [] h = h
column_there-altered table column into added (t ∷ ts) h = elim (Bool-cases (text_eq into t.0)) [
  | inl own ↦ elim (Bool-cases (one_of added t.1)) [
    | inl there ↦ rw (own, there) h
    | inr lacking ↦ elim (Bool-cases (text_eq table t.0)) [
      | inl same ↦ rw (own, lacking, same) (one_of-append column added t.1 (rw same at h))
      | inr apart ↦ rw (own, lacking, apart) (rw apart at h)
    ]
  ]
  | inr other ↦ elim (Bool-cases (text_eq table t.0)) [
    | inl same ↦ rw (other, same) (rw same at h)
    | inr apart ↦
        rw (other, apart) (column_there-altered table column into added ts (rw apart at h))
  ]
]

altered-column_there :
    (table column : Text) (ts : Tables)
    → has_table table ts ≡ true
    → column_there table column (altered table column ts) ≡ true
altered-column_there table column [] h = absurd (cc h)
altered-column_there table column (t ∷ ts) h = elim (Bool-cases (text_eq table t.0)) [
  | inl own ↦ elim (Bool-cases (one_of column t.1)) [
    | inl there ↦ rw (own, there, own) there
    | inr lacking ↦ rw (own, lacking, own) (one_of-last column t.1)
  ]
  | inr other ↦ rw (other, other) (altered-column_there table column ts (rw other at h))
]

-- What holds goes on holding.
Settled-kept : (ts : Tables) (d e : Ddl) → Settled ts e → Settled (run_ddl ts d) e
Settled-kept ts (create_table name columns) e h = elim (Bool-cases (has_table name ts)) [
  | inl there ↦ rw there h
  | inr missing ↦ rw missing (appended e h)
]
  where
    appended : (e : Ddl) → Settled ts e → Settled (ts ++ (name, columns) ∷ []) e
    appended (create_table other cs) h = has_table-append other ts ((name, columns) ∷ []) h
    appended (add_column table column) h =
        column_there-append table column ts ((name, columns) ∷ []) h
Settled-kept ts (add_column table column) (create_table name columns) h =
    has_table-altered name table column ts ∙ h
Settled-kept ts (add_column into added) (add_column table column) h =
    column_there-altered table column into added ts h

run_script-kept :
    (ds : List Ddl) (ts : Tables) (e : Ddl) → Settled ts e → Settled (run_script ts ds) e
run_script-kept [] ts e h = h
run_script-kept (d ∷ ds) ts e h = run_script-kept ds (run_ddl ts d) e (Settled-kept ts d e h)

-- A statement that can be carried out: a table that is altered is there.
abbrev Ready : Tables → Ddl → Type 0
Ready ts (create_table name columns) = Unit {0}
Ready ts (add_column table column) = has_table table ts ≡ true

Ready-Settled : (ts : Tables) (d : Ddl) → Ready ts d → Settled (run_ddl ts d) d
Ready-Settled ts (create_table name columns) h = elim (Bool-cases (has_table name ts)) [
  | inl there ↦ rw there there
  | inr missing ↦ rw missing (last ts)
]
  where
    last : (us : Tables) → has_table name (us ++ (name, columns) ∷ []) ≡ true
    last [] = rw (text_eq_refl name) refl
    last (u ∷ us) = rw (last us) (ground arith)
Ready-Settled ts (add_column table column) h = altered-column_there table column ts h

-- A script whose statements are ready as they come, in which each table altered was created before
-- or was there.
abbrev AllReady : Tables → List Ddl → Type 0
AllReady ts [] = Unit {0}
AllReady ts (d ∷ ds) = Ready ts d × AllReady (run_ddl ts d) ds

run_script-All :
    (ds : List Ddl) (ts : Tables) → AllReady ts ds → All (Settled (run_script ts ds)) ds
run_script-All [] ts h = tt
run_script-All (d ∷ ds) ts (now, later) = (
  run_script-kept ds (run_ddl ts d) d (Ready-Settled ts d now),
  run_script-All ds (run_ddl ts d) later,
)

-- Whether a script alters no table but two.
abbrev alters_only : Text → Text → List Ddl → Bool
alters_only a b [] = true
alters_only a b (create_table name columns ∷ ds) = alters_only a b ds
alters_only a b (add_column table column ∷ ds) =
    (text_eq table a || text_eq table b) && alters_only a b ds

either_there :
    (a b table : Text) (ts : Tables)
    → has_table a ts ≡ true
    → has_table b ts ≡ true
    → (text_eq table a || text_eq table b) ≡ true
    → has_table table ts ≡ true
either_there a b table ts ha hb h = elim (Bool-cases (text_eq table a)) [
  | inl same ↦ ap (λ n. has_table n ts) (text_eq→eq table a same) ∙ ha
  | inr other ↦ ap (λ n. has_table n ts) (text_eq→eq table b (rw other at h)) ∙ hb
]

AllReady-altering :
    (a b : Text) (ds : List Ddl) (ts : Tables)
    → alters_only a b ds ≡ true
    → has_table a ts ≡ true
    → has_table b ts ≡ true
    → AllReady ts ds
AllReady-altering a b [] ts h ha hb = tt
AllReady-altering a b (create_table name columns ∷ ds) ts h ha hb = (
  tt,
  AllReady-altering a b ds (run_ddl ts (create_table name columns)) h
      (Settled-kept ts (create_table name columns) (create_table a []) ha)
      (Settled-kept ts (create_table name columns) (create_table b []) hb),
)
AllReady-altering a b (add_column table column ∷ ds) ts h ha hb = (
  either_there a b table ts ha hb (ground arith),
  AllReady-altering a b ds (altered table column ts) (ground arith)
      (Settled-kept ts (add_column table column) (create_table a []) ha)
      (Settled-kept ts (add_column table column) (create_table b []) hb),
)

all_ready : (ts : Tables) → AllReady ts (schema ++ migrations)
all_ready ts =
    let (runs, (steps, _)) = run_script-All schema ts (tt, (tt, (tt, tt))) in
    (
      tt,
      (
        tt,
        (
          tt,
          AllReady-altering (codes "runs") (codes "steps") migrations (run_script ts schema) refl
              runs steps,
        ),
      ),
    )

run_script-append :
    (ds es : List Ddl) (ts : Tables) → run_script ts (ds ++ es) ≡ run_script (run_script ts ds) es
run_script-append [] es ts = refl
run_script-append (d ∷ ds) es ts = run_script-append ds es (run_ddl ts d)

-- All statements after the tables of a file.
pub scripts-Settled :
    (ts : Tables)
    → All (Settled (run_script (run_script ts schema) migrations)) (schema ++ migrations)
scripts-Settled ts = run_script-All (schema ++ migrations) ts (all_ready ts)
