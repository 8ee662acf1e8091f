-- ===== src/Atif/RoundTrip.antt =====
-- atif.py after trajectory.py: a run that was logged is exported as it was.
use termiclaw.Prelude.{
  ℤ, pos, Text, codes, text_eq, strip, List, [], ◌∷◌, ◌++◌, map, Option, none, some, nonempty, Bool,
  true, false, ◌≡◌, refl, ap, ◌∙◌, ◌⊎◌, inl, inr, All, if◌then◌else◌,
}
use termiclaw.Errors.{Raises, returns, ok}
use termiclaw.Model.{ParsedCommand, StepRecord, MetricValue}
use termiclaw.Python.{Builtins, Json, str, float, dict, Fields, get, int_of, json_text, loaded}
use termiclaw.State.{State, status_text}
use termiclaw.Summarizer.{truthy}
use termiclaw.Validate.{require_dict}
use termiclaw.Trajectory.{
  RunDir, step_to_dict, tool_calls, command_calls, optional_text, metadata, append_step,
  write_run_metadata, json_bool,
}
use termiclaw.Trajectory.Lines.{
  append_steps, line_of, Unbroken, splitlines-ended, append_steps-trajectory,
}
use termiclaw.Atif.{
  AtifToolCall, AtifStep, AtifRun, no_metrics, calls_of, entry_to_step, steps_of, load_trajectory,
  load_run_meta, export_run, atif_run, text_if_true, error_of,
}

-- The export of a step, from the step itself.
abbrev pub command_call : ParsedCommand → AtifToolCall
command_call cmd = record {
  function_name = codes "bash_command";
  arguments =
      (codes "keystrokes", str cmd.keystrokes) ∷ (codes "duration", float cmd.duration) ∷ [];
}

abbrev pub mark_complete : AtifToolCall
mark_complete = record { function_name = codes "mark_task_complete"; arguments = [] }

abbrev pub nonempty_text : Option Text → Option Text
nonempty_text none = none
nonempty_text (some []) = none
nonempty_text (some (c ∷ t)) = some (c ∷ t)

-- The number of prompt tokens in metrics.
abbrev pub tokens_of : List (Text × MetricValue) → ℤ
tokens_of [] = pos 0
tokens_of ((k, MetricValue.int z) ∷ rest) =
    if text_eq k (codes "prompt_tokens") then z else tokens_of rest
tokens_of (m ∷ rest) = tokens_of rest

abbrev pub exported_step : StepRecord → AtifStep
exported_step s = record {
  step_id = s.step_id;
  timestamp = s.timestamp;
  source = s.source;
  message = truthy s.analysis;
  tool_calls = if s.task_complete then mark_complete ∷ [] else map command_call s.commands;
  terminal_output = s.observation;
  metrics = record no_metrics { prompt_tokens = tokens_of s.metrics };
  is_copied_context = s.is_copied_context;
  error = nonempty_text s.error;
  model_name = [];
  reasoning_content = none;
}

-- The metrics of the steps that decide logs: none, or those of log_agent_step.
abbrev pub HasLoggedMetrics : List (Text × MetricValue) → Type 0
HasLoggedMetrics ms =
    (ms ≡ [])
    ⊎ ((z : ℤ) × (version : Text) × (ms
          ≡ (codes "prompt_tokens", MetricValue.int z)
            ∷ (codes "prompt_version", MetricValue.str version)
            ∷ []))

-- What `json.dumps` is relied on for: a line of its own, that `json.loads` reads back.
abbrev pub Logged : Builtins → (Json → Text) → StepRecord → Type 0
Logged py dumps s =
    Unbroken (line_of dumps s)
    × (strip (line_of dumps s) ≡ line_of dumps s)
    × (nonempty (line_of dumps s) ≡ true)
    × (py.loads (line_of dumps s) ≡ loaded (dict (step_to_dict s)))
    × HasLoggedMetrics s.metrics

calls_of-command_calls :
    (cmds : List ParsedCommand) → calls_of (command_calls cmds) ≡ map command_call cmds
unfolding get
calls_of-command_calls [] = refl
calls_of-command_calls (cmd ∷ cmds) = ap (λ r. command_call cmd ∷ r) (calls_of-command_calls cmds)

message_lem : (py : Builtins) (t : Text) → text_if_true py (some (str t)) ≡ t
unfolding json_bool json_text
message_lem py [] = refl
message_lem py (c ∷ t) = refl

calls_lem :
    (s : StepRecord) (b : Bool)
    → s.task_complete ≡ b
    → calls_of (tool_calls s) ≡ (if b then mark_complete ∷ [] else map command_call s.commands)
unfolding get
calls_lem s true e = rw e refl
calls_lem s false e = rw e (calls_of-command_calls s.commands)

error_lem :
    (py : Builtins) (e : Option Text) → error_of py (some (optional_text e)) ≡ nonempty_text e
unfolding json_bool json_text
error_lem py none = refl
error_lem py (some []) = refl
error_lem py (some (c ∷ t)) = refl

-- The export with the three fields that are decided by tests.
abbrev with_fields : StepRecord → Text → List AtifToolCall → Option Text → Raises AtifStep
with_fields s message calls error =
    returns (record (exported_step s) { message = message; tool_calls = calls; error = error })

by_fields :
    (py : Builtins) (s : StepRecord)
    → HasLoggedMetrics s.metrics
    → entry_to_step py (step_to_dict s)
      ≡ with_fields s
          (text_if_true py (some (str (truthy s.analysis))))
          (calls_of (tool_calls s))
          (error_of py (some (optional_text s.error)))
unfolding entry_to_step step_to_dict get json_text json_bool int_of
by_fields py s (inl none_there) = rw none_there refl
by_fields py s (inr (z, version, both)) = rw both refl

entry_to_step-step_to_dict :
    (py : Builtins) (s : StepRecord)
    → HasLoggedMetrics s.metrics
    → entry_to_step py (step_to_dict s) ≡ returns (exported_step s)
entry_to_step-step_to_dict py s h =
    by_fields py s h
    ∙ ap
        (λ m.
          with_fields s m (calls_of (tool_calls s)) (error_of py (some (optional_text s.error))))
        (message_lem py (truthy s.analysis))
    ∙ ap (λ c. with_fields s (truthy s.analysis) c (error_of py (some (optional_text s.error))))
        (calls_lem s s.task_complete refl)
    ∙ ap (with_fields s (truthy s.analysis) (exported_step s).tool_calls) (error_lem py s.error)

-- The lines of a file of such steps.
steps_of-lines :
    (py : Builtins) (dumps : Json → Text) (steps : List StepRecord)
    → All (Logged py dumps) steps
    → steps_of py (map (line_of dumps) steps) ≡ returns (map exported_step steps)
steps_of-lines py dumps [] h = refl
steps_of-lines py dumps (s ∷ ss) ((unbroken, stripped, some_text, reads, bare), later) =
    rw
      (
        stripped,
        some_text,
        reads,
        entry_to_step-step_to_dict py s bare,
        steps_of-lines py dumps ss later,
      )
      refl

lines-Unbroken :
    (py : Builtins) (dumps : Json → Text) (steps : List StepRecord)
    → All (Logged py dumps) steps
    → All Unbroken (map (line_of dumps) steps)
lines-Unbroken py dumps [] h = tt
lines-Unbroken py dumps (s ∷ ss) (now, later) = (now.0, lines-Unbroken py dumps ss later)

abbrev pub new_dir : RunDir
new_dir = record { run_json = none; trajectory = none }

load_trajectory-append_steps :
    (py : Builtins) (dumps : Json → Text) (steps : List StepRecord)
    → All (Logged py dumps) steps
    → load_trajectory py (append_steps dumps new_dir steps) ≡ returns (map exported_step steps)
unfolding load_trajectory append_step
load_trajectory-append_steps py dumps [] h = refl
load_trajectory-append_steps py dumps (s ∷ ss) h =
    rw
      (append_steps-trajectory dumps (append_step dumps new_dir s) ss (line_of dumps s ++ 10 ∷ [])
        refl)
      (ap (steps_of py)
          (splitlines-ended (map (line_of dumps) (s ∷ ss)) (lines-Unbroken py dumps (s ∷ ss) h))
        ∙ steps_of-lines py dumps (s ∷ ss) h)

-- The export of a run, from its last state.
abbrev pub exported_run : State → Text → List StepRecord → AtifRun
exported_run state finished_at steps = record {
  schema_version = codes "1.6";
  run_id = state.run_id;
  session_id = [];
  instruction = state.instruction;
  started_at = state.started_at;
  finished_at = finished_at;
  status = status_text state.status;
  steps = map exported_step steps;
}

module _ (py : Builtins) (dump_indented : Json → Text) (state : State)
    (finished_at reason : Text) where
  abbrev pub meta : Fields
  meta = metadata state (some finished_at) (some reason)

  -- What is relied on for run.json.
  abbrev pub ReadBack : Type 0
  ReadBack = py.loads (dump_indented (dict meta) ++ codes "\n") ≡ loaded (dict meta)

  load_run_meta-written :
      (path : Text) (d : RunDir)
      → ReadBack
      → load_run_meta py path
          (write_run_metadata dump_indented d state (some finished_at) (some reason))
        ≡ ok meta
  unfolding load_run_meta write_run_metadata require_dict
  load_run_meta-written path d read = rw read refl

  atif_run-meta :
      (run_id : Text) (steps : List StepRecord)
      → atif_run py run_id meta (map exported_step steps) ≡ exported_run state finished_at steps
  unfolding metadata get json_text
  atif_run-meta run_id steps =
      ap (λ f. record (exported_run state finished_at steps) { finished_at = f })
        (message_lem py finished_at)

  load_trajectory-written :
      (d : RunDir)
      → load_trajectory py
          (write_run_metadata dump_indented d state (some finished_at) (some reason))
        ≡ load_trajectory py d
  unfolding load_trajectory write_run_metadata
  load_trajectory-written d = refl

  -- If json.loads reads run.json back, and each step has no metrics or those of log_agent_step,
  -- and is dumped as one line, not blank and without blanks around it, that json.loads reads
  -- back: the export of a run whose steps were appended to a new directory, and whose metadata
  -- was then written with a finish time and a reason, has the id, the texts and the status of the
  -- state, the steps in order with their commands or the mark of completion and with their prompt
  -- tokens, the other metrics 0, and an empty session id.
  pub export_run-written :
      (dumps : Json → Text) (path run_id : Text) (steps : List StepRecord)
      → ReadBack
      → All (Logged py dumps) steps
      → export_run py run_id path (
          some (
            write_run_metadata dump_indented
              (append_steps dumps new_dir steps)
              state
              (some finished_at)
              (some reason)))
        ≡ returns (ok (exported_run state finished_at steps))
  unfolding export_run load_run_meta write_run_metadata
  export_run-written dumps path run_id steps read logged =
      rw
        (
          load_run_meta-written (path ++ codes "/run.json") (append_steps dumps new_dir steps) read,
          load_trajectory-written (append_steps dumps new_dir steps),
          load_trajectory-append_steps py dumps steps logged,
        )
        (ap (λ r. returns (ok r)) (atif_run-meta run_id steps))
