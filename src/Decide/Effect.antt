-- ===== src/Decide/Effect.antt =====
-- What one call of `decide` does to each counter of the state, event by event, and the same over
-- a whole history of events.
use termiclaw.Prelude.{ℕ, ◌+◌, ℤ, pos, ◌+ℤ◌, List, [], ◌∷◌, ◌++◌, Bool, ◌≡◌, arith, tail_slice}
use termiclaw.Errors.{returns}
use termiclaw.Python.{Builtins}
use termiclaw.Model.{StepRecord, Config}
use termiclaw.State.{State, with_step, with_status, with_summarization}
use termiclaw.Event.{
  Event, loop_tick, planner_responded, planner_failed, summarization_done, step_logged, Transition,
}
use termiclaw.Decide.{DecideEffects, decide}

-- The steps logged so far.
abbrev pub count_after : ℕ → Event → ℕ
count_after n (step_logged step) = n + 1
count_after n _ = n

-- The window of recent steps.
abbrev pub recent_after : List StepRecord → Event → List StepRecord
recent_after steps (step_logged step) = tail_slice 20 (steps ++ step ∷ [])
recent_after steps (summarization_done summary qa) = []
recent_after steps _ = steps

-- The steps logged since the last summarization.
abbrev pub steps_after : List StepRecord → Event → List StepRecord
steps_after steps (step_logged step) = steps ++ step ∷ []
steps_after steps (summarization_done summary qa) = []
steps_after steps _ = steps

-- The prompt tokens that planner responses reported since the last summarization.
abbrev pub tokens_after : ℤ → Event → ℤ
tokens_after n (planner_responded parsed usage) =
    n +ℤ usage.input_tokens +ℤ usage.cache_read_input_tokens
tokens_after n (summarization_done summary qa) = pos 0
tokens_after n _ = n

-- Whether the last planner response claimed completion.
abbrev pub claimed_after : Bool → Event → Bool
claimed_after b (planner_responded parsed usage) = parsed.task_complete
claimed_after b _ = b

-- The planner failures since the last planner response.
abbrev pub failures_after : ℕ → Event → ℕ
failures_after n (planner_responded parsed usage) = 0
failures_after n (planner_failed error) = n + 1
failures_after n _ = n

pub record Effect (s : State) (e : Event) (t : State) : Type 0 where
  pub count : t.current_step ≡ count_after s.current_step e
  pub recent : t.recent_steps ≡ recent_after s.recent_steps e
  pub tokens : t.total_prompt_tokens ≡ tokens_after s.total_prompt_tokens e
  pub claimed : t.pending_completion ≡ claimed_after s.pending_completion e
  pub failures : t.consecutive_planner_failures ≡ failures_after s.consecutive_planner_failures e

module _ (py : Builtins) (config : Config) (effects : DecideEffects) where
  pub decide-Effect :
      (s : State) (e : Event) (n : ℕ) (t : Transition) (m : ℕ)
      → decide py s e config effects n ≡ returns (t, m)
      → Effect s e t.state
  unfolding decide with_status with_step with_summarization
  decide-Effect s (loop_tick ready alive) n t m h = ground arith
  decide-Effect s (planner_responded parsed usage) n t m h = ground arith
  decide-Effect s e n t m h = ground arith
