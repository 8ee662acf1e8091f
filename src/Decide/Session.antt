-- ===== src/Decide/Session.antt =====
-- Which run, container and Claude session a transition works on, and what its queries resume.
use termiclaw.Prelude.{
  ℕ, Text, List, [], ◌∷◌, ◌++◌, map, some, is_some, Bool, true, false, ◌≡◌, refl, arith, All,
  if◌then◌else◌, inl, inr, not, ◌&&◌, Bool-cases, Option-cases,
}
use termiclaw.Errors.{Raises, returns, raises, Raises-cases}
use termiclaw.Python.{Builtins}
use termiclaw.Model.{Config, ParsedCommand, PlannerUsage, StepRecord}
use termiclaw.State.{State, ForkContext, with_step, with_status, with_summarization}
use termiclaw.Event.{
  Event, loop_tick, observation_captured, planner_responded, planner_failed, command_acked,
  summarization_done, artifacts_refreshed, Command, force_interrupt, query_planner, log_step,
  Transition,
}
use termiclaw.Core.{artifact_refresh_trigger, should_summarize}
use termiclaw.Decide.{
  DecideEffects, Decided, decide, send_command, resume_parent_of, tick_commands, after_trigger,
  on_loop_tick, on_observation, on_planner_responded, handle_completion, send_and_log,
}
use termiclaw.Decide.History.{replay}

-- The fields that no transition touches, the stall counters among them.
pub record SameRun (s t : State) : Type 0 where
  pub run : t.run_id ≡ s.run_id
  pub task : t.instruction ≡ s.instruction
  pub tmux : t.tmux_session ≡ s.tmux_session
  pub started : t.started_at ≡ s.started_at
  pub container : t.container_id ≡ s.container_id
  pub turns : t.max_turns ≡ s.max_turns
  pub stalled : t.stall ≡ s.stall

-- The session is adopted at most once, at the first response.
pub record SameSession (s t : State) : Type 0 where
  pub session : t.claude_session_id ≡ s.claude_session_id
  pub no_first : t.is_first_call ≡ false

-- A query forks exactly where it resumes a parent, and it resumes a parent only on the first call
-- of a fork, that fork's parent.
abbrev pub Resumes : State → Command → Type 0
Resumes s (query_planner prompt first_call resume_parent fork_session) =
    (fork_session ≡ is_some resume_parent)
    × (first_call ≡ true → s.is_first_call ≡ true)
    × ((p : Text)
        → resume_parent ≡ some p
        → (s.is_first_call ≡ true)
          × ((f : ForkContext) × (s.fork ≡ some f) × (f.resume_parent_session ≡ p)))
Resumes s (force_interrupt reason) = ⊥
Resumes s _ = Unit {0}

Resumes-sends :
    (s : State) (config : Config) (cmds : List ParsedCommand) (step : StepRecord) (u : PlannerUsage)
    → All (Resumes s) (map (send_command config) cmds ++ log_step step u ∷ [])
unfolding send_command
Resumes-sends s config [] step u = (tt, tt)
Resumes-sends s config (c ∷ cmds) step u = (tt, Resumes-sends s config cmds step u)

module _ (py : Builtins) (config : Config) (effects : DecideEffects) where
  pub decide-SameRun :
      (s : State) (e : Event) (n : ℕ) (t : Transition) (m : ℕ)
      → decide py s e config effects n ≡ returns (t, m)
      → SameRun s t.state
  unfolding decide with_status with_step with_summarization
  decide-SameRun s (loop_tick ready alive) n t m h = ground arith
  decide-SameRun s e n t m h = ground arith

  pub decide-SameSession :
      (s : State) (e : Event) (n : ℕ) (t : Transition) (m : ℕ)
      → decide py s e config effects n ≡ returns (t, m)
      → s.is_first_call ≡ false
      → SameSession s t.state
  unfolding decide with_status with_step with_summarization
  decide-SameSession s (loop_tick ready alive) n t m h f = ground arith
  decide-SameSession s e n t m h f = ground arith

resume_parent_of_lem :
    (s : State) (p : Text)
    → resume_parent_of s ≡ some p
    → (s.is_first_call ≡ true)
      × ((f : ForkContext) × (s.fork ≡ some f) × (f.resume_parent_session ≡ p))
unfolding resume_parent_of
resume_parent_of_lem s p h = elim (Option-cases s.fork) [
  | inl missing ↦ absurd (ground arith)
  | inr (f, found) ↦ (ground arith, (f, found, ground arith))
]

-- Every command of the outcome, if it is no exception.
abbrev AllCommands : (Command → Type 0) → Decided → Type 0
AllCommands P (raises x) = Unit {0}
AllCommands P (returns (t, m)) = All P t.commands

AllCommands-returns :
    (P : Command → Type 0) (d : Decided) (t : Transition) (m : ℕ)
    → d ≡ returns (t, m)
    → AllCommands P d
    → All P t.commands
AllCommands-returns P d t m e h = rw e at h

AllCommands-if :
    (P : Command → Type 0) (b : Bool) (c d : Decided)
    → AllCommands P c
    → AllCommands P d
    → AllCommands P (if b then c else d)
AllCommands-if P true c d hc hd = hc
AllCommands-if P false c d hc hd = hd

Resumes-tick :
    (py : Builtins) (s : State) (config : Config) (ready : Bool)
    → All (Resumes s) (tick_commands py s config ready)
unfolding tick_commands
Resumes-tick py s config ready = elim (Bool-cases (ready && should_summarize s config)) [
  | inl due ↦ rw due (tt, (tt, tt))
  | inr not_due ↦ rw not_due (tt, tt)
]

Resumes-trigger :
    (py : Builtins) (s : State) (config : Config) (ready : Bool) (n : ℕ) (r : Raises Text)
    → AllCommands (Resumes s) (after_trigger py s config ready n r)
unfolding after_trigger
Resumes-trigger py s config ready n (raises x) = tt
Resumes-trigger py s config ready n (returns []) = Resumes-tick py s config ready
Resumes-trigger py s config ready n (returns (c ∷ r)) = (tt, tt)

module _ (py : Builtins) (config : Config) (effects : DecideEffects) where
  decide-AllCommands :
      (s : State) (e : Event) (n : ℕ) → AllCommands (Resumes s) (decide py s e config effects n)
  unfolding decide handle_completion on_loop_tick on_observation on_planner_responded send_and_log
  decide-AllCommands s (loop_tick ready alive) n =
      AllCommands-if (Resumes s) (not alive) _ _ tt
        (Resumes-trigger py s config ready n (artifact_refresh_trigger s config))
  decide-AllCommands s (observation_captured text buf) n =
      ((refl, (λ h. h), resume_parent_of_lem s), tt)
  decide-AllCommands s (planner_responded parsed usage) n =
      AllCommands-if (Resumes s) parsed.task_complete _ _
        (AllCommands-if (Resumes s) s.pending_completion _ _ (tt, tt)
          ((refl, (λ h. cc), (λ p h. absurd (ground arith))), tt))
        (Resumes-sends s config parsed.commands _ usage)
  decide-AllCommands s (planner_failed error) n = (tt, tt)
  decide-AllCommands s (command_acked ok) n = (tt, tt)
  decide-AllCommands s (summarization_done summary qa) n = (tt, tt)
  decide-AllCommands s (artifacts_refreshed trigger) n = (tt, tt)
  decide-AllCommands s _ n = tt

  -- Whenever decide returns, each query that it asks for forks exactly if it names a parent
  -- session, is a first call only in a state before its first call, and names a parent only there
  -- and only that of the fork of the state; and no command is a forced interrupt.
  pub decide-Resumes :
      (s : State) (e : Event) (n : ℕ) (t : Transition) (m : ℕ)
      → decide py s e config effects n ≡ returns (t, m)
      → All (Resumes s) t.commands
  decide-Resumes s e n t m h =
      AllCommands-returns (Resumes s) (decide py s e config effects n) t m h
        (decide-AllCommands s e n)

  -- For every history that decide handles without an exception, the run id, the instruction, the
  -- tmux session, the start, the container, the turn limit and the stall counters stay the same.
  pub replay-SameRun :
      (s : State) (n : ℕ) (es : List Event) (t : State) (m : ℕ)
      → replay py config effects s n es ≡ returns (t, m)
      → SameRun s t
  unfolding replay
  replay-SameRun s n [] t m r = ground arith
  replay-SameRun s n (e ∷ es) t m r = elim (Raises-cases (decide py s e config effects n)) [
    | inr (x, eq) ↦ absurd (ground arith)
    | inl ((u, j), eq) ↦ ground (
      arith,
      decide-SameRun py config effects s e n u j eq,
      replay-SameRun u.state j es t m (ground arith),
    )
  ]

  -- For every history that decide handles without an exception, from a state past its first call:
  -- the Claude session stays the same and the state stays past its first call.
  pub replay-SameSession :
      (s : State) (n : ℕ) (es : List Event) (t : State) (m : ℕ)
      → replay py config effects s n es ≡ returns (t, m)
      → s.is_first_call ≡ false
      → SameSession s t
  unfolding replay
  replay-SameSession s n [] t m r f = ground arith
  replay-SameSession s n (e ∷ es) t m r f = elim (Raises-cases (decide py s e config effects n)) [
    | inr (x, eq) ↦ absurd (ground arith)
    | inl ((u, j), eq) ↦
        let one = decide-SameSession py config effects s e n u j eq f in
        ground (arith, one, replay-SameSession u.state j es t m (ground arith) one.no_first)
  ]
