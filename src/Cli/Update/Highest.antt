-- ===== src/Cli/Update/Highest.antt =====
-- cli.py: the version that _parse_latest_tag returns is the highest.
use termiclaw.Prelude.{
  ℕ, ℤ, text_eq_refl, one_of, Text, codes, starts_with, drop, length, nonempty, List, [], ◌∷◌,
  Option, none, some, Bool, true, false, ◌&&◌, ◌≡◌, refl, sym, ap, subst, arith, All, inl, inr, ◌⊎◌,
  Bool-cases,
}
use termiclaw.Python.{Builtins}
use termiclaw.Trajectory.{splitlines}
use termiclaw.Cli.Update.{
  split_on, version_tuple, tuple_lt, three_numbers, tag_version, second_field, version_in,
  line_version, improved, better, latest_of, parse_latest_tag,
}

tuple_lt_asym : (a b : List ℤ) → tuple_lt a b ≡ true → tuple_lt b a ≡ false
tuple_lt_asym a [] h = absurd (ground arith)
tuple_lt_asym [] (y ∷ b) h = refl
tuple_lt_asym (x ∷ a) (y ∷ b) h = let ih = tuple_lt_asym a b in ground (arith, ih)

tuple_nlt_refl : (a : List ℤ) → tuple_lt a a ≡ false
tuple_nlt_refl [] = refl
tuple_nlt_refl (x ∷ a) = let ih = tuple_nlt_refl a in ground (arith, ih)

tuple_nlt_trans :
    (a b c : List ℤ) → tuple_lt a b ≡ false → tuple_lt b c ≡ false → tuple_lt a c ≡ false
tuple_nlt_trans a b [] h k = refl
tuple_nlt_trans a [] (z ∷ c) h k = absurd (ground arith)
tuple_nlt_trans [] (y ∷ b) (z ∷ c) h k = absurd (ground arith)
tuple_nlt_trans (x ∷ a) (y ∷ b) (z ∷ c) h k = let ih = tuple_nlt_trans a b c in ground (arith, ih)

module _ (py : Builtins) (is_decimal : ℕ → Bool) where
  abbrev pub named : Option Text → List Text → List Text
  named none vs = vs
  named (some v) vs = v ∷ vs

  -- The versions that the lines name.
  abbrev pub versions : List Text → List Text
  versions [] = []
  versions (line ∷ lines) = named (line_version py is_decimal line) (versions lines)

  -- No version of a list is higher than this one.
  abbrev pub IsHighest : Text → List Text → Type 0
  IsHighest best vs = All (λ v. tuple_lt (version_tuple py best) (version_tuple py v) ≡ false) vs

  tag_version-nonempty : (t v : Text) → tag_version py is_decimal t ≡ some v → nonempty v ≡ true
  tag_version-nonempty [] v e = absurd (cc e)
  tag_version-nonempty (c ∷ t) v e =
      let rest = drop (length (codes "refs/tags/termiclaw-v")) (c ∷ t) in
      elim (Bool-cases (
        starts_with (c ∷ t) (codes "refs/tags/termiclaw-v")
        && three_numbers py is_decimal (split_on b'.' rest))) [
          | inr missing ↦ tag_version-nonempty t v (rw missing at e)
          | inl found ↦ is_named rest found (rw found at e)
        ]
    where
      is_named :
          (rest : Text)
          → starts_with (c ∷ t) (codes "refs/tags/termiclaw-v")
              && three_numbers py is_decimal (split_on b'.' rest)
            ≡ true
          → some rest ≡ some v
          → nonempty v ≡ true
      is_named [] found same = absurd (ground arith)
      is_named (d ∷ rest) found same = ap nonempty (sym (some_inj same))
        where
          some_inj : {a b : Text} → some a ≡ some b → a ≡ b
          some_inj e = cc e

  version_in-nonempty :
      (o : Option Text) (v : Text) → version_in py is_decimal o ≡ some v → nonempty v ≡ true
  version_in-nonempty none v e = absurd (cc e)
  version_in-nonempty (some ref) v e = tag_version-nonempty ref v e

  line_version-nonempty :
      (line v : Text) → line_version py is_decimal line ≡ some v → nonempty v ≡ true
  line_version-nonempty line v e =
      version_in-nonempty (second_field py is_decimal (split_on b'\t' line)) v e

  abbrev Best : Text → List Text → Type 0
  Best out vs = (one_of out vs ≡ true) × IsHighest out vs

  one_of-more :
      (out best : Text) (vs : List Text) → one_of out vs ≡ true → one_of out (best ∷ vs) ≡ true
  one_of-more out best vs h = rw h (ground arith)

  one_of-between :
      (out best v : Text) (vs : List Text)
      → one_of out (best ∷ vs) ≡ true
      → one_of out (best ∷ v ∷ vs) ≡ true
  one_of-between out best v vs h = ground arith

  module _ (lines : List Text) where
    abbrev search : Text → Text
    search best = latest_of py is_decimal best lines

    search-better :
        (best v : Text)
        → nonempty best ≡ true
        → Best (search v) (v ∷ versions lines)
        → Best (search best) (best ∷ versions lines)
        → Best (search (better py is_decimal best v)) (best ∷ v ∷ versions lines)
    search-better best v there (among, (top, rest)) (among', (top', rest')) =
        elim (Bool-cases (tuple_lt (version_tuple py best) (version_tuple py v))) [
          | inl higher ↦
              let e : better py is_decimal best v ≡ v = rw (there, higher) refl in
              subst (λ c. Best (search c) (best ∷ v ∷ versions lines)) (sym e)
                (
                  one_of-more (search v) best (v ∷ versions lines) among,
                  (
                    tuple_nlt_trans (version_tuple py (search v)) (version_tuple py v)
                        (version_tuple py best) top
                        (tuple_lt_asym (version_tuple py best) (version_tuple py v) higher),
                    (top, rest),
                  ),
                )
          | inr no_higher ↦
              let e : better py is_decimal best v ≡ best = rw (there, no_higher) refl in
              subst (λ c. Best (search c) (best ∷ v ∷ versions lines)) (sym e)
                (
                  one_of-between (search best) best v (versions lines) among',
                  (
                    top',
                    (
                      tuple_nlt_trans (version_tuple py (search best)) (version_tuple py best)
                          (version_tuple py v) top' no_higher,
                      rest',
                    ),
                  ),
                )
        ]

  latest_of-highest :
      (lines : List Text) (best : Text)
      → nonempty best ≡ true
      → Best (latest_of py is_decimal best lines) (best ∷ versions lines)
  latest_of-highest [] best there =
      rw (text_eq_refl best) (refl, (tuple_nlt_refl (version_tuple py best), tt))
  latest_of-highest (line ∷ lines) best there =
      improved-highest (line_version py is_decimal line) (line_version-nonempty line)
        (latest_of-highest lines)
    where
      improved-highest :
          (o : Option Text)
          → ((v : Text) → o ≡ some v → nonempty v ≡ true)
          → ((b : Text)
              → nonempty b ≡ true
              → Best (latest_of py is_decimal b lines) (b ∷ versions lines))
          → Best
              (latest_of py is_decimal (improved py is_decimal best o) lines)
              (best ∷ named o (versions lines))
      improved-highest none some_text rest = rest best there
      improved-highest (some v) some_text rest =
          search-better lines best v there (rest v (some_text v refl)) (rest best there)

  -- Whatever git ls-remote printed: _parse_latest_tag returns "" if no line names a version, and
  -- otherwise a version that a line names, such that no line names a higher one.
  pub parse_latest_tag-IsHighest :
      (ls_remote_output : Text)
      → let vs = versions (splitlines ls_remote_output) in
        let latest = parse_latest_tag py is_decimal ls_remote_output in
        ((vs ≡ []) × (latest ≡ [])) ⊎ ((one_of latest vs ≡ true) × IsHighest latest vs)
  unfolding parse_latest_tag
  parse_latest_tag-IsHighest ls_remote_output = from_none (splitlines ls_remote_output)
    where
      from_none :
          (lines : List Text)
          → ((versions lines ≡ []) × (latest_of py is_decimal [] lines ≡ []))
            ⊎ Best (latest_of py is_decimal [] lines) (versions lines)
      from_none [] = inl (refl, refl)
      from_none (line ∷ lines) =
          first (line_version py is_decimal line) (line_version-nonempty line) (from_none lines)
        where
          first :
              (o : Option Text)
              → ((v : Text) → o ≡ some v → nonempty v ≡ true)
              → ((versions lines ≡ []) × (latest_of py is_decimal [] lines ≡ []))
                ⊎ Best (latest_of py is_decimal [] lines) (versions lines)
              → ((named o (versions lines) ≡ [])
                  × (latest_of py is_decimal (improved py is_decimal [] o) lines ≡ []))
                ⊎ Best
                    (latest_of py is_decimal (improved py is_decimal [] o) lines)
                    (named o (versions lines))
          first none some_text rest = rest
          first (some v) some_text rest = inr (latest_of-highest lines v (some_text v refl))
