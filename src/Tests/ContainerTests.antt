-- ===== src/Tests/ContainerTests.antt =====
-- Keys split, and captures compared.
use mathlib.Core.List.{flatten}
use termiclaw.Prelude.{
  ℕ, Text, codes, List, [], ◌∷◌, ◌≡◌, refl, arith, All, tail_slice, starts_with,
}
use termiclaw.Errors.{returns, raises}
use termiclaw.Event.{Transition, observation_captured}
use termiclaw.Decide.{decide, Decided}
use termiclaw.Container.{
  split_keys, find_max_chunk_size, has_surrogate, utf8_len, get_incremental_output,
}
use termiclaw.Container.Split.{IsLargest, Fits, find_max_chunk_size-IsLargest, split_keys_total}
use termiclaw.Container.Capture.{reset_output, grown_history_resets}
use termiclaw.Tests.Fixtures.{py, config, effects, start}

find_max_chunk_size-IsLargest_example :
    IsLargest (codes "naïve") 4 (find_max_chunk_size (codes "naïve") 4)
find_max_chunk_size-IsLargest_example = find_max_chunk_size-IsLargest (codes "naïve") 4

split_naive : split_keys (codes "naïve") 4 ≡ returns (codes "naï" ∷ codes "ve" ∷ [])
unfolding split_keys find_max_chunk_size has_surrogate utf8_len
split_naive = refl

split_keys_total_example :
    (chunks : List Text) × (split_keys (codes "naïve") 4 ≡ returns chunks)
    × (flatten chunks ≡ codes "naïve")
    × All (Fits 4) chunks
unfolding has_surrogate
split_keys_total_example = split_keys_total (codes "naïve") 4 refl refl (omega arith)

reset_output_example :
    get_incremental_output {W = ℕ}
      (λ w. (returns (codes "$"), w))
      (λ w. (returns (codes "$"), w))
      (codes "$ ls")
      0
    ≡ (returns (codes "[TERMINAL RESET]\n$", codes "$"), 0)
unfolding starts_with
reset_output_example =
    reset_output (λ w. (returns (codes "$"), w)) (λ w. (returns (codes "$"), w)) 0 0 (codes "$ ls")
      (codes "$") (codes "$") 0 refl refl refl refl

abbrev state_after : Decided → Transition
state_after (returns (t, m)) = t
state_after (raises x) = record { state = start; commands = [] }

-- With a tail of three characters, "$ ls" is kept as " ls".
abbrev kept : Transition
kept =
    state_after
      (decide py start (observation_captured (codes "$ ls") (codes "$ ls")) config effects 0)

grown_history_resets_example :
    get_incremental_output {W = ℕ}
      (λ w. (returns (codes "$ ls\na"), w))
      (λ w. (returns (codes "a"), w))
      kept.state.previous_buffer
      0
    ≡ (returns (codes "[TERMINAL RESET]\na", codes "$ ls\na"), 0)
unfolding decide tail_slice
grown_history_resets_example =
    grown_history_resets py config effects start 0 kept 0 (λ w. (returns (codes "$ ls\na"), w))
      (λ w. (returns (codes "a"), w)) 0 0 0 (codes "$ ls") (codes "a") (codes "\na") (codes " ls")
      (codes "ls") b'$' b' ' refl (omega arith) refl (omega arith) refl refl
