-- ===== src/Summarizer/Queue.antt =====
-- The worker of summarize_worker.py against what it promises: a queue with room for one job.
use termiclaw.Prelude.{
  ◌≤◌, Text, List, [], ◌∷◌, ◌++◌, append-nil, map, length, Option, none, some, Bool, true, false,
  ◌≡◌, refl, sym, ap, ◌∙◌, arith,
}
use termiclaw.Errors.{Exception, Raises, returns, raises, Result, SummarizationError}
use termiclaw.Event.{SummarizationJob}
use termiclaw.Ports.{SummarizationComplete}
use termiclaw.Summarizer.Worker.{
  Future, running, finished, SummarizationWorker, new_worker, submit, poll, shutdown, complete,
  report,
}

-- A call of the loop, or a step of the thread.
pub data Call : Type 0 where
  submitted : SummarizationJob → Call
  polled completed closed : Call

abbrev pub Report : Type 0
Report = Result SummarizationComplete SummarizationError

-- The worker, the jobs it took, and the reports it gave.
pub record Trace : Type 0 where
  pub worker : SummarizationWorker
  pub accepted : List SummarizationJob
  pub delivered : List Report

abbrev pub untouched : Trace
untouched = record { worker = new_worker; accepted = []; delivered = [] }

module _ (show : Exception → Text) (outcome : SummarizationJob → Raises SummarizationComplete) where
  abbrev after_submit : Trace → SummarizationJob → Raises (Unit {0}) × SummarizationWorker → Trace
  after_submit t job (returns u, w) = record t { worker = w; accepted = t.accepted ++ job ∷ [] }
  after_submit t job (raises x, w) = record t { worker = w }

  abbrev after_poll : Trace → Option Report × SummarizationWorker → Trace
  after_poll t (none, w) = record t { worker = w }
  after_poll t (some r, w) = record t { worker = w; delivered = t.delivered ++ r ∷ [] }

  unfoldable pub call : Trace → Call → Trace
  call t (submitted job) = after_submit t job (submit job t.worker)
  call t polled = after_poll t (poll show t.worker)
  call t completed = record t { worker = complete outcome t.worker }
  call t closed = record t { worker = shutdown t.worker }

  -- The calls in order, on a new worker.
  unfoldable pub trace : Trace → List Call → Trace
  trace t [] = t
  trace t (c ∷ cs) = trace (call t c) cs

  -- What is still to be reported of the job in flight.
  abbrev pub in_flight : Option Future → List Report
  in_flight none = []
  in_flight (some (running job)) = report show (outcome job) ∷ []
  in_flight (some (finished r)) = report show r ∷ []

  -- The reports are those of the jobs taken, in order, but for one at most: the job in flight, or
  -- the one that a shutdown dropped.
  pub record InOrder (t : Trace) : Type 0 where
    pub rest : List Report
    pub reports : map (λ job. report show (outcome job)) t.accepted ≡ t.delivered ++ rest
    pub one : length rest ≤ 1
    pub live : t.worker.is_shut ≡ false → rest ≡ in_flight t.worker.future
    pub shut : t.worker.is_shut ≡ true → t.worker.future ≡ none

  abbrev trace_of : Option Future → Bool → List SummarizationJob → List Report → Trace
  trace_of f b accepted delivered = record {
    worker = record { future = f; is_shut = b };
    accepted = accepted;
    delivered = delivered;
  }

  map-snoc :
      (jobs : List SummarizationJob) (job : SummarizationJob)
      → map (λ j. report show (outcome j)) (jobs ++ job ∷ [])
        ≡ map (λ j. report show (outcome j)) jobs ++ report show (outcome job) ∷ []
  map-snoc [] job = refl
  map-snoc (j ∷ jobs) job = ap (λ r. report show (outcome j) ∷ r) (map-snoc jobs job)

  taken-InOrder :
      (a : List SummarizationJob) (d : List Report) (job : SummarizationJob)
      → InOrder (trace_of none false a d)
      → InOrder (trace_of (some (running job)) false (a ++ job ∷ []) d)
  taken-InOrder a d job h = record {
    rest = report show (outcome job) ∷ [];
    reports =
        map-snoc a job
        ∙ ap (λ r. r ++ report show (outcome job) ∷ [])
            (h.reports ∙ ap (λ r. d ++ r) (h.live refl) ∙ append-nil d);
    one = omega arith;
    live = λ e. refl;
    shut = λ e. absurd (ground arith);
  }

  given-InOrder :
      (a : List SummarizationJob) (d : List Report) (r : Raises SummarizationComplete)
      → InOrder (trace_of (some (finished r)) false a d)
      → InOrder (trace_of none false a (d ++ report show r ∷ []))
  given-InOrder a d r h = record {
    rest = [];
    reports =
        h.reports ∙ ap (λ x. d ++ x) (h.live refl) ∙ sym (append-nil (d ++ report show r ∷ []));
    one = omega arith;
    live = λ e. refl;
    shut = λ e. refl;
  }

  call_cases :
      (f : Option Future) (b : Bool) (a : List SummarizationJob) (d : List Report) (c : Call)
      → InOrder (trace_of f b a d)
      → InOrder (call (trace_of f b a d) c)
  unfolding call submit poll complete shutdown
  call_cases (some f) b a d (submitted job) h = h
  call_cases none true a d (submitted job) h = h
  call_cases none false a d (submitted job) h = taken-InOrder a d job h
  call_cases none b a d polled h = h
  call_cases (some (running job)) b a d polled h = h
  call_cases (some (finished r)) false a d polled h = given-InOrder a d r h
  call_cases (some (finished r)) true a d polled h = absurd (ground (arith, h.shut refl))
  call_cases none b a d completed h = h
  call_cases (some (finished r)) b a d completed h = h
  call_cases (some (running job)) b a d completed h = record {
    rest = h.rest;
    reports = h.reports;
    one = h.one;
    live = h.live;
    shut = λ e. absurd (ground (arith, h.shut e));
  }
  call_cases f b a d closed h = record {
    rest = h.rest;
    reports = h.reports;
    one = h.one;
    live = λ e. absurd (ground arith);
    shut = λ e. refl;
  }

  trace_from : (t : Trace) (cs : List Call) → InOrder t → InOrder (trace t cs)
  unfolding trace
  trace_from t [] h = h
  trace_from t (c ∷ cs) h =
      trace_from (call t c) cs
        (call_cases t.worker.future t.worker.is_shut t.accepted t.delivered c h)

  -- For every sequence of submits, polls, completions of the thread and shutdowns on a new
  -- worker, the reports of the accepted jobs, in order, are the reports that were delivered and
  -- then at most one more; while the worker is not shut down, that rest is the job in flight, and
  -- a worker that is shut down has none.
  pub trace-InOrder : (cs : List Call) → InOrder (trace untouched cs)
  trace-InOrder cs =
      trace_from untouched cs (record {
        rest = [];
        reports = refl;
        one = omega arith;
        live = λ e. refl;
        shut = λ e. refl;
      })
