-- ===== src/Artifacts/Writes.antt =====
-- artifacts.py: the directories that the writes of a refresh pass through, and the last of them.
use termiclaw.Prelude.{
  ℕ, Text, List, [], ◌∷◌, ◌++◌, map, true, false, take, ◌≡◌, refl, ap, sym, ◌∙◌, inl, inr,
  Bool-cases,
}
use termiclaw.Errors.{Raises, returns, raises, unicode_error}
use termiclaw.Container.{has_surrogate}
use termiclaw.Artifacts.{
  Dir, put, prefixes, Passing, last_or, tmp_name, write_text, replace, renamed, write_atomic,
  and_then, write_files,
}

pub last_or-append : (us vs : List Dir) (d : Dir) → last_or d (us ++ vs) ≡ last_or (last_or d us) vs
last_or-append [] vs d = refl
last_or-append (u ∷ us) vs d = last_or-append us vs u

map-map :
    (f : Text → Dir) (g : Text → Text) (ts : List Text) → map f (map g ts) ≡ map (λ t. f (g t)) ts
map-map f g [] = refl
map-map f g (t ∷ ts) = ap (λ us. f (g t) ∷ us) (map-map f g ts)

last_or-prefixes : (f : Text → Dir) (t : Text) (d : Dir) → last_or d (map f (prefixes t)) ≡ f t
unfolding prefixes
last_or-prefixes f [] d = refl
last_or-prefixes f (c ∷ t) d =
    ap (last_or (f [])) (map-map f (λ p. c ∷ p) (prefixes t))
    ∙ last_or-prefixes (λ p. f (c ∷ p)) t (f [])

-- What a write of a file leaves.
abbrev pub landed : Dir → Text → Text → Dir
landed d filename content = replace (put d (tmp_name filename) content) (tmp_name filename) filename

abbrev pub settled : (Text → Text) → ℕ → List (Text × Text) → Dir → Raises (Unit {0}) × Dir
settled texts limit [] d = (returns tt, d)
settled texts limit ((key, filename) ∷ rest) d =
    let content = take limit (texts key) in
    elim (has_surrogate content) [
      | true ↦ (raises unicode_error, put d (tmp_name filename) [])
      | false ↦ settled texts limit rest (landed d filename content)
    ]

-- What a write passes through, if the text has a UTF-8 and if it has none.
abbrev pub passed : Dir → Text → Text → List Dir
passed d filename content =
    map (put d (tmp_name filename)) (prefixes content) ++ landed d filename content ∷ []

pub write_atomic-bad :
    (d : Dir) (filename content : Text)
    → has_surrogate content ≡ true
    → write_atomic d filename content ≡ (raises unicode_error, put d (tmp_name filename) [] ∷ [])
unfolding write_atomic write_text
write_atomic-bad d filename content bad = rw bad refl

write_text-clean :
    (d : Dir) (filename content : Text)
    → has_surrogate content ≡ false
    → write_text d filename content ≡ (returns tt, map (put d filename) (prefixes content))
unfolding write_text
write_text-clean d filename content clean = rw clean refl

pub write_atomic-clean :
    (d : Dir) (filename content : Text)
    → has_surrogate content ≡ false
    → write_atomic d filename content ≡ (returns tt, passed d filename content)
unfolding write_atomic
write_atomic-clean d filename content clean =
    ap (λ (p : Passing). (p.0, p.1 ++ renamed p.0 (last_or d p.1) filename)) text_clean
    ∙ ap
        (λ u. (
          returns tt,
          map (put d (tmp_name filename)) (prefixes content)
              ++ replace u (tmp_name filename) filename ∷ [],
        ))
        (last_or-prefixes (put d (tmp_name filename)) content d)
  where
    text_clean :
        write_text d (tmp_name filename) content
        ≡ (returns tt, map (put d (tmp_name filename)) (prefixes content))
    text_clean = write_text-clean d (tmp_name filename) content clean

module _ (texts : Text → Text) (limit : ℕ) where
  abbrev pub outcome : List (Text × Text) → Dir → Raises (Unit {0}) × Dir
  outcome files d =
      ((write_files texts limit files d).0, last_or d (write_files texts limit files d).1)

  -- The loop from a file on, by what the write of the file was.
  abbrev onward : List (Text × Text) → Dir → Passing → Raises (Unit {0}) × Dir
  onward rest d file =
      let all = and_then file (write_files texts limit rest (last_or d file.1)) in
      (all.0, last_or d all.1)

  onward-outcome :
      (rest : List (Text × Text)) (d u : Dir) (us : List Dir)
      → onward rest d (returns tt, us ++ u ∷ []) ≡ outcome rest u
  onward-outcome rest d u us =
      ap (λ v. ((write_files texts limit rest (last_or d (us ++ u ∷ []))).0, v))
        (last_or-append (us ++ u ∷ []) (write_files texts limit rest (last_or d (us ++ u ∷ []))).1
          d)
      ∙ ap (outcome rest) (last_or-append us (u ∷ []) d)

  pub outcome-settled :
      (files : List (Text × Text)) (d : Dir) → outcome files d ≡ settled texts limit files d
  unfolding write_files
  outcome-settled [] d = refl
  outcome-settled ((key, filename) ∷ rest) d =
      let content = take limit (texts key) in
      elim (Bool-cases (has_surrogate content)) [
        | inl bad ↦
            ap (onward rest d) (write_atomic-bad d filename content bad)
            ∙ sym (rw (settled, bad) refl)
        | inr clean ↦
            ap (onward rest d) (write_atomic-clean d filename content clean)
            ∙ onward-outcome rest d (landed d filename content)
                (map (put d (tmp_name filename)) (prefixes content))
            ∙ outcome-settled rest (landed d filename content)
            ∙ sym (rw (settled, clean) refl)
      ]
