-- ===== src/Mcts/Playout/Sequence.antt =====
-- mcts.py: what the playouts of one worker make of the tree.
use termiclaw.Prelude.{
  ℕ, ◌+◌, Text, List, [], ◌∷◌, ◌++◌, append_assoc, append-nil, map, Option, none, some, ◌≡◌, refl,
  sym, ap, ◌∙◌, subst, arith, All, inl, inr, Bool-cases,
}
use termiclaw.Float.{Float}
use termiclaw.Errors.{Raises, returns, raises, Exception}
use termiclaw.Agent.Run.{is_termiclaw_error}
use termiclaw.Mcts.{
  NodeId, Node, Tree, root_id, new_node, new_tree, select, pick_variant, record_new_node, backprop,
}
use termiclaw.Mcts.History.{key_of}
use termiclaw.Mcts.Line.{
  shape, line, Other, AllOther, shape-expanded, line-Next, select-Next, Next-here,
}
use termiclaw.Mcts.Playout.{
  MctsSearch, PlayoutResult, simulate, persist_all, simulated, caught, after_try, after_select,
  root_of, playout,
}

module _ {W : Type 0} (s : MctsSearch W) (fuel : ℕ) where
  -- Playouts one after the other: each gave a result, or failed before it expanded the tree.
  pub data Played : ℕ → Tree → W → List PlayoutResult → Tree → W → Type 0 where
    over : {idx : ℕ} {t : Tree} {w : W} → Played idx t w [] t w
    scored :
        {idx : ℕ} {t u t' : Tree} {w v w' : W} {r : PlayoutResult} {rs : List PlayoutResult}
        → playout s fuel idx t w ≡ some (returns (some r), u, v)
        → Played (idx + 1) u v rs t' w'
        → Played idx t w (r ∷ rs) t' w'
    failed :
        {idx : ℕ} {t t' : Tree} {w v w' : W} {rs : List PlayoutResult}
        → playout s fuel idx t w ≡ some (returns none, t, v)
        → Played (idx + 1) t v rs t' w'
        → Played idx t w rs t' w'

  -- What a result says of the tree, when the node expanded is known.
  abbrev Expanded : ℕ → Tree → NodeId → PlayoutResult → Tree → Type 0
  Expanded idx t parent r u =
      (run_id : Text) × (reward : Float) × (r.node_id ≡ key_of run_id)
      × (u
          ≡ (backprop (record_new_node t parent run_id (pick_variant s.variants idx))
              (key_of run_id) reward).0)

  caught_raise : (x : Exception) (r : PlayoutResult) → caught s (raises x) ≡ returns (some r) → ⊥
  caught_raise x r e = elim (Bool-cases (is_termiclaw_error x)) [
    | inl own ↦ ground (arith, own)
    | inr other ↦ ground (arith, other)
  ]

  simulated-Expanded :
      (idx : ℕ) (t u : Tree) (parent : Node) (r : PlayoutResult)
      (o : Raises (Text × Float × Text) × W)
      → caught s (simulated s t parent (pick_variant s.variants idx) o).0 ≡ returns (some r)
      → (simulated s t parent (pick_variant s.variants idx) o).1 ≡ u
      → Expanded idx t parent.id r u
  simulated-Expanded idx t u parent r (raises x, w) e f = absurd (caught_raise x r e)
  simulated-Expanded idx t u parent r (returns (run_id, reward, reason), w) e f =
      (run_id, reward, by_rows (persist_all s done.0 done.1 w).0 e, sym f)
    where
      done : Tree × List NodeId
      done =
          backprop (record_new_node t parent.id run_id (pick_variant s.variants idx))
            (key_of run_id) reward

      by_rows :
          (p : Raises (Unit {0}))
          → caught s (elim p [
            | raises x ↦ raises x
            | returns _ ↦ returns (record {
              node_id = key_of run_id;
              leaf_run_id = run_id;
              reward = reward;
              reason = reason;
            })
          ])
            ≡ returns (some r)
          → r.node_id ≡ key_of run_id
      by_rows (raises x) e = absurd (caught_raise x r e)
      by_rows (returns _) e = cc e

  after_select-Expanded :
      (idx : ℕ) (t u : Tree) (w v : W) (r : PlayoutResult) (parent : Node)
      (found : Option (Raises Node))
      → found ≡ some (returns parent)
      → after_select s idx t w found ≡ some (returns (some r), u, v)
      → Expanded idx t parent.id r u
  after_select-Expanded idx t u w v r parent found e h =
      let variant = pick_variant s.variants idx in
      let out : some (after_try s (simulated s t parent variant (simulate s parent variant w)))
          ≡ some (returns (some r), u, v) =
        ap (after_select s idx t w) (sym e) ∙ h in
      simulated-Expanded idx t u parent r (simulate s parent variant w) (cc out) (cc out)

  -- A playout on a line makes the line one longer.
  playout-line :
      (idx : ℕ) (t u : Tree) (w v : W) (r : PlayoutResult) (ids : List NodeId)
      → shape t ≡ line (root_id ∷ ids)
      → AllOther (root_id ∷ ids)
      → playout s fuel idx t w ≡ some (returns (some r), u, v)
      → shape u ≡ line (root_id ∷ ids ++ r.node_id ∷ [])
  unfolding playout
  playout-line idx t u w v r ids e apart h =
      let next = line-Next root_id ids t e apart in
      let (n, there) = Next-here t root_id ids next in
      let is_root : root_of s t ≡ n =
        ap (λ o. elim o [ none ↦ new_node root_id none [] | some m ↦ m ]) there in
      elim (select-Next fuel s.libm s.ucb_c t root_id ids n next there) [
        | inl out ↦ absurd (
            cc (
              h,
              ap (λ m. after_select s idx t w (select fuel s.libm s.ucb_c t m)) is_root,
              ap (after_select s idx t w) out,
            ))
        | inr (x, found, last) ↦
            let (run_id, reward, named, grown) =
              after_select-Expanded idx t u w v r x (select fuel s.libm s.ucb_c t (root_of s t))
                (ap (select fuel s.libm s.ucb_c t) is_root ∙ found) h in
            ap shape grown
            ∙ ap
                (λ p.
                  shape
                    (backprop (record_new_node t p run_id (pick_variant s.variants idx))
                      (key_of run_id) reward).0)
                last
            ∙ shape-expanded root_id ids t run_id (pick_variant s.variants idx) reward e apart
            ∙ ap (λ k. line (root_id ∷ ids ++ k ∷ [])) (sym named)
      ]

  AllOther-left : (ids rest : List NodeId) → AllOther (ids ++ rest) → AllOther ids
  AllOther-left [] rest h = tt
  AllOther-left (i ∷ ids) rest (now, later) = (All-left ids now, AllOther-left ids rest later)
    where
      All-left : (js : List NodeId) → All (Other i) (js ++ rest) → All (Other i) js
      All-left [] h = tt
      All-left (j ∷ js) (a, b) = (a, All-left js b)

  Played-line :
      {idx : ℕ} {t u : Tree} {w v : W} {rs : List PlayoutResult} (ids : List NodeId)
      → shape t ≡ line (root_id ∷ ids)
      → AllOther (root_id ∷ ids ++ map (λ r. r.node_id) rs)
      → Played idx t w rs u v
      → shape u ≡ line (root_id ∷ ids ++ map (λ r. r.node_id) rs)
  Played-line ids e apart over = e ∙ ap (λ l. line (root_id ∷ l)) (sym (append-nil ids))
  Played-line {idx} {t} {u} {w} {v} ids e apart (scored {u = y} {v = z} {r = r} {rs = rs} h more) =
      let regroup : ids ++ map (λ q. q.node_id) (r ∷ rs)
          ≡ (ids ++ r.node_id ∷ []) ++ map (λ q. q.node_id) rs =
        sym (append_assoc ids (r.node_id ∷ []) (map (λ q. q.node_id) rs)) in
      let here = AllOther-left (root_id ∷ ids) (map (λ q. q.node_id) (r ∷ rs)) apart in
      Played-line (ids ++ r.node_id ∷ []) (playout-line idx t y w z r ids e here h)
        (subst (λ l. AllOther (root_id ∷ l)) regroup apart) more
      ∙ ap (λ l. line (root_id ∷ l)) (sym regroup)
  Played-line ids e apart (failed h more) = Played-line ids e apart more

  -- For playouts of one worker on the new tree, one after the other, each of which gives a result
  -- or fails with the tree as it was, and results whose node ids differ from each other and from
  -- the root: the tree is a line, the root and then the nodes of the results in their order, each
  -- the only child of the one before.
  pub search-line :
      {u : Tree} {w v : W} {rs : List PlayoutResult}
      → AllOther (root_id ∷ map (λ r. r.node_id) rs)
      → Played 0 new_tree w rs u v
      → shape u ≡ line (root_id ∷ map (λ r. r.node_id) rs)
  search-line apart h = Played-line [] refl apart h
