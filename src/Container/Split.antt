-- ===== src/Container/Split.antt =====
-- The chunks of keys that container.py makes, against the limit.
use mathlib.Core.List.{flatten}
use termiclaw.Prelude.{
  ℕ, zero, suc, ◌+◌, ◌-◌, ◌/◌, ◌≤◌, ◌<◌, max, Text, List, [], ◌∷◌, ◌++◌, append-nil, true, false,
  ◌≡◌, refl, ◌∙◌, ap, arith, length, take, drop, length-drop, take-append-drop, leb, leb→le, All,
  nonempty, inl, inr, Bool-cases,
}
use termiclaw.Errors.{returns}
use termiclaw.Container.{
  utf8_len, has_surrogate, bisect, find_max_chunk_size, chunks_of, split_keys,
}

utf8_len-take_mono :
    (text : Text) (i j : ℕ) → i ≤ j → utf8_len (take i text) ≤ utf8_len (take j text)
unfolding utf8_len
utf8_len-take_mono text zero j h = omega arith
utf8_len-take_mono [] (suc i) zero h = absurd (omega arith)
utf8_len-take_mono [] (suc i) (suc j) h = omega arith
utf8_len-take_mono (c ∷ s) (suc i) zero h = absurd (omega arith)
utf8_len-take_mono (c ∷ s) (suc i) (suc j) h = omega (arith, utf8_len-take_mono s i j (omega arith))

-- The largest prefix that fits.
pub record IsLargest (text : Text) (limit r : ℕ) : Type 0 where
  pub fits : utf8_len (take r text) ≤ limit
  pub within : r ≤ length text
  pub largest : (k : ℕ) → k ≤ length text → utf8_len (take k text) ≤ limit → k ≤ r

module _ (text : Text) (limit : ℕ) where
  -- The prefixes longer than `high` do not fit.
  Above : ℕ → Type 0
  Above high = (k : ℕ) → k ≤ length text → high < k → limit < utf8_len (take k text)

  crossed :
      (low high result : ℕ)
      → high < low
      → low ≤ result + 1
      → utf8_len (take result text) ≤ limit
      → result ≤ length text
      → Above high
      → IsLargest text limit result
  unfolding Above
  crossed low high result over near fits within above = record {
    fits = fits;
    within = within;
    largest = λ k le small. elim (Bool-cases (leb k result)) [
      | inl yes_le ↦ leb→le k result yes_le
      | inr no_le ↦ absurd (omega (arith, above k le (ground arith)))
    ];
  }

  Above-mid : (mid high : ℕ) → limit < utf8_len (take mid text) → high + 1 ≡ mid → Above high
  unfolding Above
  Above-mid mid high big e k le lt = omega (arith, utf8_len-take_mono text mid k (omega arith))

  bisect-IsLargest :
      (fuel low high result : ℕ)
      → high + 2 - low ≤ fuel
      → low ≤ result + 1
      → high ≤ length text
      → utf8_len (take result text) ≤ limit
      → result ≤ length text
      → Above high
      → IsLargest text limit (bisect fuel text limit low high result)
  unfolding bisect
  bisect-IsLargest zero low high result e near top fits within above =
      crossed low high result (omega arith) near fits within above
  bisect-IsLargest (suc fuel) low high result e near top fits within above =
      let mid = (low + high) / 2 in
      elim (Bool-cases (leb low high)) [
        | inr over ↦ rw over (crossed low high result (ground arith) near fits within above)
        | inl open_range ↦
            let le : low ≤ high = leb→le low high open_range in
            elim (Bool-cases (leb (utf8_len (take mid text)) limit)) [
              | inl small ↦
                  rw (open_range, small)
                    (bisect-IsLargest fuel (mid + 1) high mid (omega arith) (omega arith) top
                      (leb→le _ _ small) (omega arith) above)
              | inr big ↦
                  let far : limit < utf8_len (take mid text) = ground arith in
                  let some_mid : 0 < mid = positive mid far in
                  rw (open_range, big)
                    (bisect-IsLargest fuel low (mid - 1) result (omega arith) near (omega arith)
                      fits within (Above-mid mid (mid - 1) far (omega arith)))
            ]
      ]
    where
      positive : (mid : ℕ) → limit < utf8_len (take mid text) → 0 < mid
      positive zero far = absurd (unfold utf8_len in omega arith)
      positive (suc mid) far = omega arith

-- The binary search returns the length of a prefix that fits the limit in UTF-8 bytes, and every
-- longer prefix of the text exceeds the limit.
pub find_max_chunk_size-IsLargest :
    (text : Text) (limit : ℕ) → IsLargest text limit (find_max_chunk_size text limit)
unfolding find_max_chunk_size
find_max_chunk_size-IsLargest text limit =
    bisect-IsLargest text limit (length text + 2) 0 (length text) 0 (omega arith) (omega arith)
      (omega arith) (unfold utf8_len in omega arith) (omega arith)
      (unfold Above in λ k le lt. absurd (omega arith))

-- A chunk that one call can carry.
abbrev pub Fits : ℕ → Text → Type 0
Fits limit chunk = (nonempty chunk ≡ true) × (utf8_len chunk ≤ limit)

chunk_size-Fits :
    (c : ℕ) (rest : Text) (limit : ℕ)
    → 4 ≤ limit
    → Fits limit (take (max 1 (find_max_chunk_size (c ∷ rest) limit)) (c ∷ rest))
chunk_size-Fits c rest limit room =
    go (find_max_chunk_size (c ∷ rest) limit) (find_max_chunk_size-IsLargest (c ∷ rest) limit)
  where
    one : utf8_len (take 1 (c ∷ rest)) ≤ 4
    one = unfold utf8_len in ground arith

    go : (r : ℕ) → IsLargest (c ∷ rest) limit r → Fits limit (take (max 1 r) (c ∷ rest))
    go zero h = absurd (omega (arith, one, h.largest 1))
    go (suc r) h = let e : max 1 (suc r) ≡ suc r = omega arith in rw e (refl, h.fits)

chunks_of-Fits :
    (fuel : ℕ) (remaining : Text) (limit : ℕ)
    → 4 ≤ limit
    → All (Fits limit) (chunks_of fuel remaining limit)
unfolding chunks_of flatten
chunks_of-Fits zero remaining limit room = tt
chunks_of-Fits (suc fuel) [] limit room = tt
chunks_of-Fits (suc fuel) (c ∷ rest) limit room =
    (chunk_size-Fits c rest limit room, chunks_of-Fits fuel _ limit room)

flatten-chunks_of :
    (fuel : ℕ) (remaining : Text) (limit : ℕ)
    → length remaining ≤ fuel
    → flatten (chunks_of fuel remaining limit) ≡ remaining
unfolding chunks_of flatten
flatten-chunks_of zero [] limit enough = refl
flatten-chunks_of zero (c ∷ rest) limit enough = absurd (omega arith)
flatten-chunks_of (suc fuel) [] limit enough = refl
flatten-chunks_of (suc fuel) (c ∷ rest) limit enough =
    let size = max 1 (find_max_chunk_size (c ∷ rest) limit) in
    let left = drop size (c ∷ rest) in
    ap (λ r. take size (c ∷ rest) ++ r)
      (flatten-chunks_of fuel left limit (omega (arith, length-drop size (c ∷ rest))))
    ∙ take-append-drop size (c ∷ rest)

-- Keys that are not empty and hold no surrogate, with a limit of 4 bytes or more, are split
-- without an exception into chunks that join to the keys, none of them empty and each of at most
-- the limit in UTF-8.
pub split_keys_total :
    (keys : Text) (limit : ℕ)
    → has_surrogate keys ≡ false
    → nonempty keys ≡ true
    → 4 ≤ limit
    → (chunks : List Text) × (split_keys keys limit ≡ returns chunks)
      × (flatten chunks ≡ keys)
      × All (Fits limit) chunks
unfolding split_keys flatten
split_keys_total keys limit clean some_keys room = elim (Bool-cases (leb (utf8_len keys) limit)) [
  | inl short ↦ (keys ∷ [], rw (clean, short), append-nil keys, ((some_keys, leb→le _ _ short), tt))
  | inr long ↦ (
    chunks_of (length keys) keys limit,
    rw (clean, long),
    flatten-chunks_of (length keys) keys limit (omega arith),
    chunks_of-Fits (length keys) keys limit room,
  )
]
