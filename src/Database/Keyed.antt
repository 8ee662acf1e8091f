-- ===== src/Database/Keyed.antt =====
-- db.py: a table under a primary key, as a map from keys to rows.
use termiclaw.Prelude.{
  Text, text_eq, text_eq→eq, List, [], ◌∷◌, ◌++◌, Option, none, some, Bool, true, false, ◌≡◌, refl,
  sym, ap, ◌∙◌, All, All-append, inl, inr, Bool-cases, if◌then◌else◌,
}
use termiclaw.Database.{without, replaced}

module _ {R : Type 0} (key : R → Text) where
  -- The first row with a key.
  abbrev pub row_at : List R → Text → Option R
  row_at [] id = none
  row_at (r ∷ rs) id = if text_eq (key r) id then some r else row_at rs id

  -- No two rows have one key.
  abbrev pub IsKeyed : List R → Type 0
  IsKeyed [] = Unit {0}
  IsKeyed (r ∷ rs) = All (λ q. text_eq (key r) (key q) ≡ false) rs × IsKeyed rs

  without-row_at :
      (id other : Text) (rows us : List R)
      → row_at (without key id rows ++ us) other
        ≡ (if text_eq id other then row_at us other else row_at (rows ++ us) other)
  without-row_at id other [] us = elim (Bool-cases (text_eq id other)) [
    | inl same ↦ rw same refl
    | inr apart ↦ rw apart refl
  ]
  without-row_at id other (r ∷ rs) us = elim (Bool-cases (text_eq (key r) id)) [
    | inl gone ↦
        let e : text_eq (key r) other ≡ text_eq id other =
          ap (λ k. text_eq k other) (text_eq→eq (key r) id gone) in
        rw gone
          (without-row_at id other rs us ∙ dropped (text_eq id other) (text_eq (key r) other) e)
    | inr kept ↦ elim (Bool-cases (text_eq id other)) [
      | inl same ↦
          let e : text_eq (key r) other ≡ false =
            ap (text_eq (key r)) (sym (text_eq→eq id other same)) ∙ kept in
          rw (kept, e, same) (without-row_at id other rs us ∙ rw same refl)
      | inr apart ↦
          rw (kept, apart)
            (ap (λ o. if text_eq (key r) other then some r else o)
              (without-row_at id other rs us ∙ rw apart refl))
    ]
  ]
    where
      dropped :
          (b c : Bool)
          → c ≡ b
          → (if b then row_at us other else row_at (rs ++ us) other)
            ≡ (if b then row_at us other else if c then some r else row_at (rs ++ us) other)
      dropped true c e = refl
      dropped false c e = rw e refl

  pub replaced-row_at :
      (row : R) (rows : List R) (id : Text)
      → row_at (replaced key row rows) id
        ≡ (if text_eq (key row) id then some row else row_at rows id)
  replaced-row_at row rows id =
      without-row_at (key row) id rows (row ∷ []) ∙ elim (Bool-cases (text_eq (key row) id)) [
        | inl same ↦ rw same refl
        | inr apart ↦ rw apart (appended rows apart)
      ]
    where
      appended :
          (rs : List R) → text_eq (key row) id ≡ false → row_at (rs ++ row ∷ []) id ≡ row_at rs id
      appended [] apart = rw apart refl
      appended (r ∷ rs) apart =
          ap (λ o. if text_eq (key r) id then some r else o) (appended rs apart)

  All-without :
      (P : R → Type 0) (id : Text) (rows : List R) → All P rows → All P (without key id rows)
  All-without P id [] h = tt
  All-without P id (r ∷ rs) (now, later) = elim (Bool-cases (text_eq (key r) id)) [
    | inl gone ↦ rw gone (All-without P id rs later)
    | inr kept ↦ rw kept (now, All-without P id rs later)
  ]

  without-Other :
      (id : Text) (rows : List R) → All (λ r. text_eq (key r) id ≡ false) (without key id rows)
  without-Other id [] = tt
  without-Other id (r ∷ rs) = elim (Bool-cases (text_eq (key r) id)) [
    | inl gone ↦ rw gone (without-Other id rs)
    | inr kept ↦ rw kept (kept, without-Other id rs)
  ]

  without-IsKeyed : (id : Text) (rows : List R) → IsKeyed rows → IsKeyed (without key id rows)
  without-IsKeyed id [] h = tt
  without-IsKeyed id (r ∷ rs) (now, later) = elim (Bool-cases (text_eq (key r) id)) [
    | inl gone ↦ rw gone (without-IsKeyed id rs later)
    | inr kept ↦
        rw kept (
          All-without (λ q. text_eq (key r) (key q) ≡ false) id rs now,
          without-IsKeyed id rs later,
        )
  ]

  append-IsKeyed :
      (rows : List R) (row : R)
      → IsKeyed rows
      → All (λ r. text_eq (key r) (key row) ≡ false) rows
      → IsKeyed (rows ++ row ∷ [])
  append-IsKeyed [] row h other = (tt, tt)
  append-IsKeyed (r ∷ rs) row (now, later) (apart, rest) = (
    All-append (λ q. text_eq (key r) (key q) ≡ false) rs (row ∷ []) now (apart, tt),
    append-IsKeyed rs row later rest,
  )

  pub replaced-IsKeyed : (row : R) (rows : List R) → IsKeyed rows → IsKeyed (replaced key row rows)
  replaced-IsKeyed row rows h =
      append-IsKeyed (without key (key row) rows) row (without-IsKeyed (key row) rows h)
        (without-Other (key row) rows)
