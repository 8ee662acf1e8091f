-- ===== src/Shell/Rows.antt =====
-- The rows of the steps table: what each command writes there, through any persistence port that
-- appends a row for `insert_step` and nothing elsewhere.
use termiclaw.Prelude.{
  ℕ, ◌+◌, ℤ, Text, codes, List, [], ◌∷◌, ◌++◌, append-nil, Option, none, Bool, false, ◌≡◌, arith,
  inl, inr,
}
use termiclaw.Float.{Float}
use termiclaw.Errors.{
  Raises, returns, raises, container, artifact_refresh, Result, ok, err, PlannerError,
}
use termiclaw.Python.{Builtins}
use termiclaw.Model.{StepRecord, Config}
use termiclaw.State.{State}
use termiclaw.Event.{
  Event, step_logged, Command, observe, send_keys, force_interrupt, query_planner,
  submit_summarization, refresh_artifacts, log_step, SummarizationJob,
}
use termiclaw.Action.{Action, Action-cases}
use termiclaw.Ports.{Ports}
use termiclaw.Shell.{apply, artifact_query, sent, interrupted, refreshed, read_response}

abbrev pub Rows : Type 0
Rows = List (ℕ × StepRecord)

-- Steps with consecutive indices, from `k`.
abbrev pub numbered : ℕ → List StepRecord → Rows
numbered k [] = []
numbered k (r ∷ rs) = (k, r) ∷ numbered (k + 1) rs

-- The rows of a world, and that the ports keep them but for `insert_step`.
pub record StepTable {W : Type 0} (ports : Ports W) : Type 0 where
  pub rows : W → Rows
  pub inserts :
      (run : Text) (r : StepRecord) (k : ℕ) (a b : ℤ) (x : Float) (d : ℤ) (w v : W)
      → ports.persistence.insert_step run r k a b x d w ≡ (returns tt, v)
      → rows v ≡ rows w ++ (k, r) ∷ []
  pub appends :
      (dir : Text) (r : StepRecord) (w : W)
      → rows (ports.persistence.append_step dir r w).1 ≡ rows w
  pub captures :
      (a b p : Text) (w : W) → rows (ports.container.get_incremental_output a b p w).1 ≡ rows w
  pub waits :
      (a b k : Text) (x y : Float) (m : ℕ) (w : W)
      → rows (ports.container.send_and_wait_idle a b k x y m w).1 ≡ rows w
  pub keys : (a b k : Text) (m : ℕ) (w : W) → rows (ports.container.send_keys a b k m w).1 ≡ rows w
  pub queries :
      (p : Text) (t r : ℕ) (s : Text) (f : Bool) (o : Option Text) (g : Bool) (w : W)
      → rows (ports.planner.query p t r s f o g w).1 ≡ rows w
  pub submits : (j : SummarizationJob) (w : W) → rows (ports.summarize.submit j w).1 ≡ rows w
  pub refreshes :
      (s : State) (dir : Text) (f : Text → Action W Text) (w : W)
      → ((p : Text) (w : W) → rows (f p w).1 ≡ rows w)
      → rows (ports.artifacts.refresh s dir f w).1 ≡ rows w
  pub alives : (a b : Text) (w : W) → rows (ports.container.is_session_alive a b w).1 ≡ rows w
  pub polls : (w : W) → rows (ports.summarize.poll w).1 ≡ rows w
  pub idles : (w : W) → rows (ports.summarize.idle w).1 ≡ rows w
  pub holds : (s : State) (w : W) → rows (ports.hold s w) ≡ rows w

-- The step that an event says was logged.
abbrev pub logged : Event → List StepRecord
logged (step_logged r) = r ∷ []
logged _ = []

quiet :
    {new : Rows} (e : Event) (old : Rows) (k : ℕ)
    → new ≡ old
    → logged e ≡ []
    → new ≡ old ++ numbered k (logged e)
quiet e old k same none_logged = rw (none_logged, append-nil) same

module _ {W : Type 0} (ports : Ports W) (table : StepTable ports) (py : Builtins) where
  open table use {rows}

  sent-logged : (r : Raises Bool) (e : Event) → sent ports r ≡ returns e → logged e ≡ []
  unfolding sent
  sent-logged (returns seen) e h = ground arith
  sent-logged (raises (container x)) e h = ground arith
  sent-logged (raises x) e h = ground arith

  interrupted-logged :
      (r : Raises (Unit {0})) (e : Event) → interrupted ports r ≡ returns e → logged e ≡ []
  unfolding interrupted
  interrupted-logged (returns seen) e h = ground arith
  interrupted-logged (raises (container x)) e h = ground arith
  interrupted-logged (raises x) e h = ground arith

  refreshed-logged :
      (t : Text) (r : Raises (Unit {0})) (e : Event)
      → refreshed ports t r ≡ returns e
      → logged e ≡ []
  unfolding refreshed
  refreshed-logged t (returns seen) e h = ground arith
  refreshed-logged t (raises (artifact_refresh x)) e h = ground arith
  refreshed-logged t (raises x) e h = ground arith

  response-logged :
      (r : Result Text PlannerError) (e : Event)
      → read_response ports py r ≡ returns e
      → logged e ≡ []
  unfolding read_response
  response-logged (err x) e h = ground arith
  response-logged (ok raw) e h = ground arith

  query-rows :
      (s : State) (config : Config) (p : Text) (w : W)
      → rows (artifact_query ports py s config p w).1 ≡ rows w
  unfolding artifact_query
  query-rows s config p w =
      elim (Action-cases
        (ports.planner.query p config.planner_timeout 1 s.claude_session_id false none false w)) [
          | inl (a, v, e) ↦ ground (
            arith,
            table.queries p config.planner_timeout 1 s.claude_session_id false none false w,
          )
          | inr (x, v, e) ↦ ground (
            arith,
            table.queries p config.planner_timeout 1 s.claude_session_id false none false w,
          )
        ]

  -- A command adds the row of the step that it logs, numbered by the step counter.
  pub apply-rows :
      (cmd : Command) (s : State) (dir : Text) (config : Config) (w v : W) (e : Event)
      → apply ports py cmd s dir config w ≡ (returns e, v)
      → rows v ≡ rows w ++ numbered s.current_step (logged e)
  unfolding apply
  apply-rows observe s dir config w v e h =
      ground (
        arith,
        table.captures s.container_id s.tmux_session s.previous_buffer w,
        append-nil (rows w),
      )
  apply-rows (send_keys k x) s dir config w v e h =
      quiet e (rows w) s.current_step
        (ground (
          arith,
          table.waits s.container_id s.tmux_session k x config.blocking_poll_interval
              config.max_command_length w,
        ))
        (sent-logged
          (ports.container.send_and_wait_idle s.container_id s.tmux_session k x
            config.blocking_poll_interval config.max_command_length w).0
          e (ground arith))
  apply-rows (force_interrupt r) s dir config w v e h =
      quiet e (rows w) s.current_step
        (ground (
          arith,
          table.keys s.container_id s.tmux_session (codes "C-c") config.max_command_length w,
        ))
        (interrupted-logged
          (ports.container.send_keys s.container_id s.tmux_session (codes "C-c")
            config.max_command_length w).0
          e (ground arith))
  apply-rows (query_planner p f r k) s dir config w v e h =
      elim (Action-cases (
        ports.planner.query p config.planner_timeout config.planner_retries s.claude_session_id f r
          k w)) [
            | inl (a, x, q) ↦
                quiet e (rows w) s.current_step
                  (ground (
                    arith,
                    table.queries p config.planner_timeout config.planner_retries
                        s.claude_session_id f r k w,
                  ))
                  (response-logged a e (ground arith))
            | inr (x, y, q) ↦ absurd (ground arith)
          ]
  apply-rows (submit_summarization j) s dir config w v e h =
      ground (arith, table.submits j w, append-nil (rows w))
  apply-rows (refresh_artifacts t) s dir config w v e h =
      quiet e (rows w) s.current_step
        (ground
          (arith, table.refreshes s dir (artifact_query ports py s config) w (query-rows s config)))
        (refreshed-logged t (ports.artifacts.refresh s dir (artifact_query ports py s config) w).0 e
          (ground arith))
  apply-rows (log_step r u) s dir config w v e h =
      let (a, x) = ports.persistence.append_step dir r w in
      elim (Action-cases (
        ports.persistence.insert_step s.run_id r s.current_step u.input_tokens u.output_tokens
          u.cost_usd u.duration_ms x)) [
            | inl (tt, y, q) ↦ ground (
              arith,
              table.appends dir r w,
              table.inserts s.run_id r s.current_step u.input_tokens u.output_tokens u.cost_usd
                  u.duration_ms x y q,
            )
            | inr (x, y, q) ↦ absurd (ground arith)
          ]
