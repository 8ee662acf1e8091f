-- ===== src/Database/Reports.antt =====
-- db.py: the nodes of a search, the histogram of failure tags, and the summary of all runs.
use termiclaw.Prelude.{
  ℕ, suc, ◌+◌, ℤ, pos, ◌+ℤ◌, Text, codes, text_eq, text_eq→eq, List, [], ◌∷◌, map, Option, none,
  some, Bool, true, false, not, ◌&&◌, ◌||◌, ◌≡◌, refl, sym, ap, ◌∙◌, arith, ltb, All, inl, inr,
  Bool-cases, if◌then◌else◌,
}
use termiclaw.Float.{Float}
use termiclaw.Mcts.Playout.{NodeRow}
use termiclaw.Trajectory.Runs.{text_lt}
use termiclaw.Database.{RunRow}
use termiclaw.Database.Search.{TagRow}

-- The dictionary of a node.
pub record NodeInfo : Type 0 where
  pub node_id : Text
  pub parent_node_id : Option Text
  pub run_id : Text
  pub step_index : ℕ
  pub variant : Text
  pub visits : ℕ
  pub total_reward : Float
  pub best_reward : Float
  pub best_leaf_run_id : Text

abbrev node_info : NodeRow → NodeInfo
node_info r = record {
  node_id = r.node_id;
  parent_node_id = r.parent_node_id;
  run_id = r.run_id;
  step_index = r.step_index;
  variant = r.variant;
  visits = r.visits;
  total_reward = r.total_reward;
  best_reward = r.best_reward;
  best_leaf_run_id = r.best_leaf_run_id;
}

-- NULL comes before every text.
abbrev null_lt : Option Text → Option Text → Bool
null_lt none none = false
null_lt none (some t) = true
null_lt (some s) none = false
null_lt (some s) (some t) = text_lt s t

-- `ORDER BY parent_node_id, node_id`
abbrev node_lt : NodeRow → NodeRow → Bool
node_lt a b =
    null_lt a.parent_node_id b.parent_node_id
    || (not (null_lt b.parent_node_id a.parent_node_id) && text_lt a.node_id b.node_id)

abbrev insert_node : NodeRow → List NodeRow → List NodeRow
insert_node r [] = r ∷ []
insert_node r (q ∷ qs) =
    let later = insert_node r qs in if node_lt q r then q ∷ later else r ∷ q ∷ qs

abbrev nodes_of : Text → List NodeRow → List NodeRow
nodes_of search_id [] = []
nodes_of search_id (r ∷ rs) =
    let rest = nodes_of search_id rs in
    if text_eq r.search_id search_id then insert_node r rest else rest

unfoldable get_mcts_nodes : List NodeRow → Text → List NodeInfo
get_mcts_nodes rows search_id = map node_info (nodes_of search_id rows)

-- `WHERE tagged_at >= ?`
abbrev pub tagged_since : Option Text → List TagRow → List TagRow
tagged_since none rows = rows
tagged_since (some since) [] = []
tagged_since (some since) (r ∷ rs) =
    let rest = tagged_since (some since) rs in if text_lt r.tagged_at since then rest else r ∷ rest

-- `GROUP BY category` with `COUNT(*)`
abbrev pub counted : Text → List (Text × ℕ) → List (Text × ℕ)
counted category [] = (category, 1) ∷ []
counted category (g ∷ groups) =
    let rest = counted category groups in
    if text_eq g.0 category then (g.0, suc g.1) ∷ groups else g ∷ rest

abbrev pub groups_of : List TagRow → List (Text × ℕ)
groups_of [] = []
groups_of (r ∷ rs) = counted r.category (groups_of rs)

-- `ORDER BY 2 DESC`
abbrev pub insert_group : Text × ℕ → List (Text × ℕ) → List (Text × ℕ)
insert_group g [] = g ∷ []
insert_group g (q ∷ qs) =
    let later = insert_group g qs in if ltb g.1 q.1 then q ∷ later else g ∷ q ∷ qs

abbrev pub by_count : List (Text × ℕ) → List (Text × ℕ)
by_count [] = []
by_count (g ∷ groups) = insert_group g (by_count groups)

-- SQL leaves the order of categories of one count open.
unfoldable pub failure_histogram : List TagRow → Option Text → List (Text × ℕ)
failure_histogram rows since_iso = by_count (groups_of (tagged_since since_iso rows))

-- The summary of all runs, but for the sum of the costs.
pub record UsageSummary : Type 0 where
  pub total_runs : ℕ
  pub succeeded : ℕ
  pub failed : ℕ
  pub total_steps : ℕ
  pub total_prompt_tokens : ℤ
  pub total_input_tokens : ℤ
  pub total_output_tokens : ℤ

-- `CASE WHEN status=? THEN 1 ELSE 0 END`
abbrev one_if : Bool → ℕ
one_if true = 1
one_if false = 0

unfoldable pub get_usage_summary : List RunRow → UsageSummary
get_usage_summary [] = record {
  total_runs = 0;
  succeeded = 0;
  failed = 0;
  total_steps = 0;
  total_prompt_tokens = pos 0;
  total_input_tokens = pos 0;
  total_output_tokens = pos 0;
}
get_usage_summary (r ∷ rs) =
    let rest = get_usage_summary rs in
    record {
      total_runs = 1 + rest.total_runs;
      succeeded = one_if (text_eq r.status (codes "succeeded")) + rest.succeeded;
      failed = one_if (text_eq r.status (codes "failed")) + rest.failed;
      total_steps = r.total_steps + rest.total_steps;
      total_prompt_tokens = r.total_prompt_tokens +ℤ rest.total_prompt_tokens;
      total_input_tokens = r.total_input_tokens +ℤ rest.total_input_tokens;
      total_output_tokens = r.total_output_tokens +ℤ rest.total_output_tokens;
    }

-- The tags of a category, and the counts that a histogram has for it.
abbrev pub tags_of : Text → List TagRow → ℕ
tags_of category [] = 0
tags_of category (r ∷ rs) = one_if (text_eq r.category category) + tags_of category rs

abbrev pub weight : Text → Text × ℕ → ℕ
weight category g = if text_eq g.0 category then g.1 else 0

abbrev pub count_for : Text → List (Text × ℕ) → ℕ
count_for category [] = 0
count_for category (g ∷ groups) = weight category g + count_for category groups

-- Counts that never rise.
abbrev pub IsFalling : List (Text × ℕ) → Type 0
IsFalling [] = Unit {0}
IsFalling (g ∷ groups) = All (λ q. ltb g.1 q.1 ≡ false) groups × IsFalling groups

swapped : (a b c : ℕ) → a + (b + c) ≡ b + (a + c)
swapped a b c = omega arith

count_for-counted :
    (category d : Text) (groups : List (Text × ℕ))
    → count_for category (counted d groups)
      ≡ one_if (text_eq d category) + count_for category groups
count_for-counted category d [] = elim (Bool-cases (text_eq d category)) [
  | inl own ↦ rw own refl
  | inr other ↦ rw other refl
]
count_for-counted category d (g ∷ groups) = elim (Bool-cases (text_eq g.0 d)) [
  | inl same ↦
      let e : text_eq d category ≡ text_eq g.0 category =
        ap (λ k. text_eq k category) (sym (text_eq→eq g.0 d same)) in
      elim (Bool-cases (text_eq g.0 category)) [
        | inl own ↦ rw (same, e, own) (omega arith)
        | inr other ↦ rw (same, e, other) (omega arith)
      ]
  | inr apart ↦ rw apart (
      ap (λ k. weight category g + k) (count_for-counted category d groups)
      ∙ swapped (weight category g) (one_if (text_eq d category)) (count_for category groups))
]

count_for-insert_group :
    (category : Text) (g : Text × ℕ) (groups : List (Text × ℕ))
    → count_for category (insert_group g groups) ≡ weight category g + count_for category groups
count_for-insert_group category g [] = refl
count_for-insert_group category g (q ∷ qs) = elim (Bool-cases (ltb g.1 q.1)) [
  | inl less ↦ rw less (
      ap (λ k. weight category q + k) (count_for-insert_group category g qs)
      ∙ swapped (weight category q) (weight category g) (count_for category qs))
  | inr first ↦ rw first refl
]

pub All-insert_group :
    (P : Text × ℕ → Type 0) (g : Text × ℕ) (groups : List (Text × ℕ))
    → P g
    → All P groups
    → All P (insert_group g groups)
All-insert_group P g [] p h = (p, tt)
All-insert_group P g (q ∷ qs) p (now, later) = elim (Bool-cases (ltb g.1 q.1)) [
  | inl less ↦ rw less (now, All-insert_group P g qs p later)
  | inr first ↦ rw first (p, (now, later))
]

ltb_asym : (a b : ℕ) → ltb a b ≡ true → ltb b a ≡ false
ltb_asym a b h = ground arith

ltb_trans : (a b c : ℕ) → ltb a b ≡ false → ltb b c ≡ false → ltb a c ≡ false
ltb_trans a b c h k = ground arith

insert_group-IsFalling :
    (g : Text × ℕ) (groups : List (Text × ℕ)) → IsFalling groups → IsFalling (insert_group g groups)
insert_group-IsFalling g [] h = (tt, tt)
insert_group-IsFalling g (q ∷ qs) (now, later) = elim (Bool-cases (ltb g.1 q.1)) [
  | inl less ↦ rw less (
    All-insert_group (λ h. ltb q.1 h.1 ≡ false) g qs (ltb_asym g.1 q.1 less) now,
    insert_group-IsFalling g qs later,
  )
  | inr first ↦ rw first ((first, below first qs now), (now, later))
]
  where
    below :
        ltb g.1 q.1 ≡ false
        → (rs : List (Text × ℕ)) → All (λ h. ltb q.1 h.1 ≡ false) rs
        → All (λ h. ltb g.1 h.1 ≡ false) rs
    below e [] h = tt
    below e (r ∷ rs) (here, there) = (ltb_trans g.1 q.1 r.1 e here, below e rs there)

-- For any tags and any start: each category has in the histogram as many tags as were given to it
-- since the start, and the counts of the histogram never rise.
pub failure_histogram-count_for :
    (rows : List TagRow) (since_iso : Option Text) (category : Text)
    → (count_for category (failure_histogram rows since_iso)
        ≡ tags_of category (tagged_since since_iso rows))
      × IsFalling (failure_histogram rows since_iso)
unfolding failure_histogram
failure_histogram-count_for rows since_iso category =
    (grouped (groups_of tags) ∙ each tags, falling (groups_of tags))
  where
    tags : List TagRow
    tags = tagged_since since_iso rows

    grouped : (gs : List (Text × ℕ)) → count_for category (by_count gs) ≡ count_for category gs
    grouped [] = refl
    grouped (g ∷ gs) =
        count_for-insert_group category g (by_count gs)
        ∙ ap (λ k. weight category g + k) (grouped gs)

    each : (ts : List TagRow) → count_for category (groups_of ts) ≡ tags_of category ts
    each [] = refl
    each (t ∷ ts) =
        count_for-counted category t.category (groups_of ts)
        ∙ ap (λ k. one_if (text_eq t.category category) + k) (each ts)

    falling : (gs : List (Text × ℕ)) → IsFalling (by_count gs)
    falling [] = tt
    falling (g ∷ gs) = insert_group-IsFalling g (by_count gs) (falling gs)
