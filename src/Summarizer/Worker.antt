-- ===== src/Summarizer/Worker.antt =====
-- summarize_worker.py: the worker that runs one summarization at a time in the background. A job
-- that the executor has taken is a future, which the thread completes in one step.
use termiclaw.Prelude.{
  Text, codes, Option, none, some, Bool, true, false, not, is_some, if◌then◌else◌,
}
use termiclaw.Errors.{
  Exception, summarization, runtime_error, Raises, returns, raises, Result, ok, err,
  SummarizationError,
}
use termiclaw.Event.{SummarizationJob}
use termiclaw.Ports.{SummarizationComplete}
use termiclaw.Action.{Action, pure, ◌>>=◌}
use termiclaw.Summarizer.{run_summarization}

-- A future of the executor: not done, or done with a value or an exception.
pub data Future : Type 0 where
  running : SummarizationJob → Future
  finished : Raises SummarizationComplete → Future

-- The handle, and whether the executor was shut down.
pub record SummarizationWorker : Type 0 where
  pub future : Option Future
  pub is_shut : Bool

-- `__init__`
abbrev pub new_worker : SummarizationWorker
new_worker = record { future = none; is_shut = false }

unfoldable pub idle : SummarizationWorker → Bool
idle worker = not (is_some worker.future)

-- An executor that was shut down raises RuntimeError for a new job.
unfoldable pub submit : SummarizationJob → Action SummarizationWorker (Unit {0})
submit job worker = elim worker.future [
  | some f ↦ (
    raises (summarization (record { message = codes "summarization already in flight" })),
    worker,
  )
  | none ↦
      (if worker.is_shut
        then (raises runtime_error, worker)
        else (returns tt, record worker { future = some (running job) }))
]

-- What a done future is reported as, with `str` of an exception given.
unfoldable pub report :
    (Exception → Text)
    → Raises SummarizationComplete
    → Result SummarizationComplete SummarizationError
report show (returns done) = ok done
report show (raises (summarization e)) = err e
report show (raises x) = err (record { message = show x })

unfoldable pub poll :
    (Exception → Text)
    → SummarizationWorker
    → Option (Result SummarizationComplete SummarizationError) × SummarizationWorker
poll show worker = elim worker.future [
  | none ↦ (none, worker)
  | some (running job) ↦ (none, worker)
  | some (finished outcome) ↦ (some (report show outcome), record worker { future = none })
]

unfoldable pub shutdown : SummarizationWorker → SummarizationWorker
shutdown worker = record worker { future = none; is_shut = true }

-- `_run`
unfoldable pub run_job :
    {W : Type 0} → (Text → Action W Text) → SummarizationJob → Action W SummarizationComplete
run_job query_fn job = do
  (summary, qa) ←
      run_summarization job.instruction job.recent_text job.full_text job.visible_screen query_fn
  pure (record { summary = summary; qa_context = qa })

-- The thread completes the job in flight, if there is one.
unfoldable pub complete :
    (SummarizationJob → Raises SummarizationComplete) → SummarizationWorker → SummarizationWorker
complete outcome worker = elim worker.future [
  | some (running job) ↦ record worker { future = some (finished (outcome job)) }
  | _ ↦ worker
]
