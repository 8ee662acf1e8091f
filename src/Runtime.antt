-- ===== src/Runtime.antt =====
-- runtime.py: the default ports, over a world with the host, the files of runs, the database, and the
-- summarization worker. agent.py: the query function of the summarizer.
pub mod Wired
pub mod Log
pub mod Keys
use termiclaw.Prelude.{
  ℕ, zero, suc, ◌*◌, ℤ, pos, Text, codes, text_eq, List, Option, none, some, Bool, true, false,
  ◌++◌, if◌then◌else◌,
}
use termiclaw.Float.{Float, finite, ticks}
use termiclaw.Errors.{
  Exception, keyboard_interrupt, planner, Raises, returns, raises, Result, ok, err, PlannerError,
  planner_error, ParseError, parse_error_text, SummarizationError,
}
use termiclaw.Python.{Builtins, Json}
use termiclaw.Model.{ParseResult, PlannerUsage, StepRecord, Config}
use termiclaw.State.{State}
use termiclaw.Event.{SummarizationJob}
use termiclaw.Action.{Action, pure, ◌>>=◌, ◌>>◌}
use termiclaw.Ports.{SummarizationComplete}
use termiclaw.Shell.{envelope_text}
use termiclaw.Container.Process.{
  Host, capture_visible, marked, send_keys, send_and_wait_idle, max_length,
}
use termiclaw.Container.Process.Wait.{marker_in}
use termiclaw.Planner.Usage.{Process, query_planner}
use termiclaw.Planner.Parse.{parse_response}
use termiclaw.Trajectory.{RunDir}
use termiclaw.Artifacts.{Dir, Passing, last_or, refresh_artifacts}
use termiclaw.Database.{Db, StepRow}
use termiclaw.Database.Query.{aggregate_usage}
use termiclaw.Summarizer.Worker.{SummarizationWorker, running, run_job, complete, poll}

-- What the ports stand on, over a world W outside of the program.
pub record Outside (W : Type 0) : Type 0 where
  pub host : Host W
  -- The rounds of polling after which the user interrupts a wait.
  pub patience : ℕ
  pub claude : (timeout : ℕ) → List Text → (prompt : Text) → Action W Process
  pub py : Builtins
  pub dumps : Json → Text
  pub dumps_indented : Json → Text
  pub str_exception : Exception → Text
  -- `SUM(cost_usd)` of SQLite
  pub cost_sum : (run_id : Text) → List StepRow → Float
  -- Whether the thread has finished a job by now.
  pub thread_done : SummarizationJob → W → Bool
  -- `path / name`
  pub under : Text → Text → Text

-- The world of a run: what is outside, and what the program keeps. `held` is the cell of
-- `_StateHolder`.
pub record World (W : Type 0) : Type 0 where
  pub outside : W
  pub db : Db
  pub runs : Text → RunDir
  pub artifacts : Text → Dir
  pub worker : SummarizationWorker
  pub held : State

module _ {W : Type 0} where
  abbrev pub outward : {A : Type 0} → Action W A → Action (World W) A
  outward m w = let (r, v) = m w.outside in (r, record w { outside = v })

-- A path of a map gets a new value.
abbrev pub set_at : {A : Type 0} → Text → A → (Text → A) → Text → A
set_at path a f other = if text_eq path other then a else f other

-- An int of seconds as a float.
abbrev pub whole_seconds : ℕ → Float
unfolding ticks
whole_seconds n = finite (pos (n * ticks))

module _ {W : Type 0} (o : Outside W) where
  -- The world after rounds of polling that ended nothing.
  abbrev pub polled : ℕ → Text → Text → Float → W → W
  polled zero container_id session_name poll_interval w = w
  polled (suc rounds) container_id session_name poll_interval w =
      polled rounds container_id session_name poll_interval (
        o.host.sleep poll_interval
          (capture_visible o.host container_id session_name (o.host.monotonic w).1).1)

  -- The world in which a wait for typed keys starts to poll.
  abbrev pub typed : Text → Text → Text → ℕ → W → W
  typed container_id session_name keys limit w =
      (o.host.monotonic (
        ((send_keys o.host container_id session_name (marked keys (marker_in o.host w)) limit
            >> send_keys o.host container_id session_name (codes "Enter") max_length)
          (o.host.uuid w).1).1)).1

  -- A wait that is still going after the user's patience is interrupted.
  abbrev pub settled : W → Option (Raises Bool × W) → Raises Bool × W
  settled stopped none = (raises keyboard_interrupt, stopped)
  settled stopped (some out) = out

  unfoldable pub send_and_wait : Text → Text → Text → Float → Float → ℕ → Action W Bool
  send_and_wait container_id session_name keys max_seconds poll_interval limit w =
      settled
        (polled o.patience container_id session_name poll_interval
          (typed container_id session_name keys limit w))
        (send_and_wait_idle o.host o.patience container_id session_name keys max_seconds
          poll_interval limit w)

  unfoldable pub query :
      Text → ℕ → ℕ → Text → Bool → Option Text → Bool → Action (World W) (Result Text PlannerError)
  query prompt timeout retries claude_session_id first_call resume_parent fork_session = outward (
      query_planner (o.claude timeout) (whole_seconds timeout) prompt retries claude_session_id
        first_call resume_parent fork_session)

  -- `PlannerError(str(parsed.error))`
  abbrev pub as_planner :
      Raises (Result ParseResult ParseError) → Raises (Result ParseResult PlannerError)
  as_planner (raises x) = raises x
  as_planner (returns (ok parsed)) = returns (ok parsed)
  as_planner (returns (err e)) = returns (err (planner_error (parse_error_text e)))

  unfoldable pub parse : Text → Raises (Result ParseResult PlannerError)
  parse raw = as_planner (parse_response o.py raw)

  unfoldable pub aggregate : Text → Action (World W) PlannerUsage
  aggregate run_id w = (
    returns (record {
      input_tokens = (aggregate_usage w.db run_id).0;
      cache_read_input_tokens = pos 0;
      output_tokens = (aggregate_usage w.db run_id).1;
      cost_usd = o.cost_sum run_id w.db.steps;
      duration_ms = pos 0;
      claude_session_id = codes "";
    }),
    w,
  )

  -- The files that `refresh_artifacts` left, under the path of their directory.
  abbrev stored : Text → Passing × World W → Raises (Unit {0}) × World W
  stored path ((r, dirs), w) =
      (r, record w { artifacts = set_at path (last_or (w.artifacts path) dirs) w.artifacts })

  abbrev refresh_with :
      Config → State → Text → (Text → Action (World W) Text) → Text → Action (World W) (Unit {0})
  refresh_with config state run_dir query_fn visible w =
      let path = o.under run_dir config.state_dump_dir_name in
      stored path (refresh_artifacts o.py state config visible query_fn (w.artifacts path) w)

  unfoldable pub refresh :
      Config → State → Text → (Text → Action (World W) Text) → Action (World W) (Unit {0})
  refresh config state run_dir query_fn =
      outward (capture_visible o.host state.container_id state.tmux_session)
      >>= refresh_with config state run_dir query_fn

  abbrev text_answer : Raises (Result Text PlannerError) → Raises Text
  text_answer (raises x) = raises x
  text_answer (returns (err e)) = raises (planner e)
  text_answer (returns (ok raw)) = returns (envelope_text o.py raw (o.py.loads raw))

  -- The query function of the summarizer, which reads the state of the cell.
  unfoldable pub summarize_query : Config → Text → Action (World W) Text
  summarize_query config prompt w =
      let (r, v) =
        query prompt config.planner_timeout 1 w.held.claude_session_id false none false w in
      (text_answer r, v)

  -- What the thread did by the time of a poll: the job in flight is run, when it is done by then.
  abbrev ran_job : Config → Raises SummarizationComplete × World W → World W
  ran_job config (outcome, w) = record w { worker = complete (λ job. outcome) w.worker }

  unfoldable pub thread_ran : Config → World W → World W
  thread_ran config w = elim w.worker.future [
    | some (running job) ↦
        (if o.thread_done job w.outside
          then ran_job config (run_job (summarize_query config) job w)
          else w)
    | _ ↦ w
  ]

  unfoldable pub poll_worker :
      Config → Action (World W) (Option (Result SummarizationComplete SummarizationError))
  poll_worker config w =
      let v = thread_ran config w in
      let (r, worker) = poll o.str_exception v.worker in (returns r, record v { worker = worker })
