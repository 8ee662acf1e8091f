-- ===== src/Mcts/Playout/Caught.antt =====
-- mcts.py: what comes out of `_playout`, on every branch.
use termiclaw.Prelude.{ℕ, Text, Option, none, some, [], ◌∷◌, ◌≡◌, ◌⊎◌, if◌then◌else◌}
use termiclaw.Float.{Float}
use termiclaw.Errors.{Raises, returns, raises, Exception}
use termiclaw.Agent.Run.{is_termiclaw_error}
use termiclaw.Mcts.{Node, Tree, pick_variant}
use termiclaw.Mcts.History.{key_of, apply_ops, expanded, credited}
use termiclaw.Mcts.Playout.{MctsSearch, PlayoutResult, simulate}

module _ {W : Type 0} (s : MctsSearch W) where
  -- A TermiclawError is a playout without a result; any other exception is raised.
  abbrev pub reported : Exception → Raises (Option PlayoutResult)
  reported x = if is_termiclaw_error x then returns none else raises x

  -- What is left after a simulation under a parent, by what the simulation gave.
  abbrev pub Scored :
      ℕ
      → Tree
      → Node
      → Raises (Text × Float × Text) × W
      → Raises (Option PlayoutResult)
      → Tree
      → Type 0
  Scored idx t parent (raises x, w) r u = (r ≡ reported x) × (u ≡ t)
  Scored idx t parent (returns (run_id, reward, reason), w) r u =
      (u
        ≡ apply_ops t (
            expanded parent.id run_id (pick_variant s.variants idx)
            ∷ credited (key_of run_id) reward
            ∷ []))
      × ((r
            ≡ returns (
                some (record {
                  node_id = key_of run_id;
                  leaf_run_id = run_id;
                  reward = reward;
                  reason = reason;
                })))
          ⊎ ((x : Exception) × (r ≡ reported x)))

  -- The same, by the node that _select found.
  abbrev pub Left : ℕ → Tree → W → Raises Node → Raises (Option PlayoutResult) → Tree → Type 0
  Left idx t w (raises x) r u = (r ≡ reported x) × (u ≡ t)
  Left idx t w (returns parent) r u =
      Scored idx t parent (simulate s parent (pick_variant s.variants idx) w) r u

  abbrev tree_in : Tree → Option (Raises (Option PlayoutResult) × Tree × W) → Tree
  tree_in t none = t
  tree_in t (some (r, u, v)) = u

  abbrev outcome_in :
      Option (Raises (Option PlayoutResult) × Tree × W) → Raises (Option PlayoutResult)
  outcome_in none = returns none
  outcome_in (some (r, u, v)) = r
