-- ===== src/Container.antt =====
-- container.py: splitting keys for the argument limit, and the diff of two captures. Docker and tmux
-- stand behind the two capture actions.
pub mod Split
pub mod Capture
pub mod Process
pub mod Files
use termiclaw.Prelude.{
  ℕ, zero, suc, ◌+◌, ◌-◌, ◌/◌, max, Text, codes, strip, starts_with, nonempty, tail_slice, List, [],
  ◌∷◌, ◌++◌, Bool, true, false, not, ◌&&◌, ◌||◌, leb, ltb, length, take, drop, if◌then◌else◌,
}
use termiclaw.Errors.{Raises, returns, raises, unicode_error}
use termiclaw.Action.{Action, pure, ◌>>=◌}

-- The bytes of one code point in UTF-8.
abbrev pub char_bytes : ℕ → ℕ
char_bytes c = if ltb c 0x80 then 1 else if ltb c 0x800 then 2 else if ltb c 0x10000 then 3 else 4

-- `len(text.encode("utf-8"))` of a text that can be encoded.
unfoldable pub utf8_len : Text → ℕ
utf8_len [] = 0
utf8_len (c ∷ s) = char_bytes c + utf8_len s

-- A lone surrogate, which `encode("utf-8")` refuses.
unfoldable pub has_surrogate : Text → Bool
has_surrogate [] = false
has_surrogate (c ∷ s) = leb 0xd800 c && leb c 0xdfff || has_surrogate s

-- The `while low <= high` loop, on fuel.
bisect : ℕ → Text → ℕ → ℕ → ℕ → ℕ → ℕ
bisect zero text limit low high result = result
bisect (suc fuel) text limit low high result =
    let mid = (low + high) / 2 in
    let above = bisect fuel text limit (mid + 1) high mid in
    let below = bisect fuel text limit low (mid - 1) result in
    if leb low high then (if leb (utf8_len (take mid text)) limit then above else below) else result

-- The interval loses at least one of its length + 1 places in each round.
unfoldable pub find_max_chunk_size : Text → ℕ → ℕ
unfolding bisect
find_max_chunk_size text limit = bisect (length text + 2) text limit 0 (length text) 0

-- The `while remaining` loop, on fuel: each chunk takes a character at least.
chunks_of : ℕ → Text → ℕ → List Text
chunks_of zero remaining limit = []
chunks_of (suc fuel) [] limit = []
chunks_of (suc fuel) (c ∷ rest) limit =
    let size = max 1 (find_max_chunk_size (c ∷ rest) limit) in
    take size (c ∷ rest) ∷ chunks_of fuel (drop size (c ∷ rest)) limit

-- `encode` raises UnicodeEncodeError on a surrogate before anything is split.
unfoldable pub split_keys : Text → ℕ → Raises (List Text)
unfolding chunks_of
split_keys keys limit =
    if has_surrogate keys
    then raises unicode_error
    else if leb (utf8_len keys) limit
    then returns (keys ∷ [])
    else returns (chunks_of (length keys) keys limit)

unfoldable pub tail_bytes : Text → ℕ → Text
tail_bytes text n = if leb (length text) n then text else tail_slice n text

abbrev pub truncation_marker : Text
truncation_marker = codes "\n\n... [truncated] ...\n\n"

-- `errors="replace"` encodes a surrogate as one byte, "?".
abbrev pub replaced_bytes : ℕ → ℕ
replaced_bytes c = if leb 0xd800 c && leb c 0xdfff then 1 else char_bytes c

unfoldable pub replaced_len : Text → ℕ
replaced_len [] = 0
replaced_len (c ∷ s) = replaced_bytes c + replaced_len s

-- A budget below zero halves to a negative number, and `max(1, …)` then gives 1, as 0 does.
unfoldable pub truncate_output : Text → ℕ → Text
truncate_output text max_bytes =
    let half = max 1 ((max_bytes - length truncation_marker) / 2) in
    if leb (replaced_len text) max_bytes
    then text
    else take half text ++ (truncation_marker ++ tail_slice half text)

module _ {W : Type 0} (capture_full_history capture_visible : Action W Text) where
  current_screen : Text → Action W (Text × Text)
  current_screen current = do
    visible ← capture_visible
    pure (codes "Current Terminal Screen:\n" ++ visible, current)

  reset_screen : Text → Action W (Text × Text)
  reset_screen current = do
    visible ← capture_visible
    pure (codes "[TERMINAL RESET]\n" ++ visible, current)

  appended : Text → Text → Action W (Text × Text)
  unfolding current_screen
  appended current incremental =
      if nonempty (strip incremental)
      then pure (codes "New Terminal Output:\n" ++ incremental, current)
      else current_screen current

  unfoldable pub get_incremental_output : Text → Action W (Text × Text)
  unfolding appended current_screen reset_screen
  get_incremental_output previous_buffer = do
    current ← capture_full_history
    if nonempty previous_buffer && starts_with current previous_buffer
        then appended current (drop (length previous_buffer) current)
        else if nonempty previous_buffer
        then reset_screen current
        else current_screen current
