-- ===== src/Decide/Calm.antt =====
-- The transitions of a conversation that nothing disturbs: which commands bring in more commands.
use termiclaw.Prelude.{
  ℕ, Text, List, [], ◌∷◌, ◌++◌, map, Bool, true, false, ◌||◌, ◌≡◌, refl, arith, All, nonempty,
}
use termiclaw.Errors.{returns}
use termiclaw.Python.{Builtins}
use termiclaw.Model.{ParsedCommand, ParseResult, PlannerUsage, StepRecord, Config}
use termiclaw.State.{State, with_step}
use termiclaw.Event.{
  Event, observation_captured, planner_responded, command_acked, step_logged, Command, observe,
  send_keys, query_planner, log_step, Transition,
}
use termiclaw.Decide.{DecideEffects, decide, send_command}

-- The commands of an undisturbed conversation, and those of them that bring in more.
abbrev pub is_calm : Command → Bool
is_calm observe = true
is_calm (send_keys keystrokes seconds) = true
is_calm (query_planner prompt first parent fork) = true
is_calm (log_step s u) = true
is_calm _ = false

abbrev pub is_pump : Command → Bool
is_pump observe = true
is_pump (send_keys keystrokes seconds) = true
is_pump (query_planner prompt first parent fork) = true
is_pump _ = false

abbrev pub has_pump : List Command → Bool
has_pump [] = false
has_pump (cmd ∷ rest) = is_pump cmd || has_pump rest

abbrev pub IsCalm : List Command → Type 0
IsCalm = All (λ cmd. is_calm cmd ≡ true)

-- A response that goes on: not complete, and with a command.
pub record GoesOn (parsed : ParseResult) : Type 0 where
  pub open_task : parsed.task_complete ≡ false
  pub acts : nonempty parsed.commands ≡ true

-- A transition of an active run that leaves it active, with commands as given.
pub record Spawns (s : State) (t : Transition) (brings : Bool) : Type 0 where
  pub status : t.state.status ≡ s.status
  pub calm : IsCalm t.commands
  pub pump : has_pump t.commands ≡ brings

sends-IsCalm :
    (config : Config) (cmds : List ParsedCommand) (r : StepRecord) (u : PlannerUsage)
    → IsCalm (map (send_command config) cmds ++ log_step r u ∷ [])
unfolding send_command
sends-IsCalm config [] r u = (refl, tt)
sends-IsCalm config (c ∷ cmds) r u = (refl, sends-IsCalm config cmds r u)

has_pump-sends :
    (config : Config) (cmds : List ParsedCommand) (rest : List Command)
    → nonempty cmds ≡ true
    → has_pump (map (send_command config) cmds ++ rest) ≡ true
unfolding send_command
has_pump-sends config [] rest h = absurd (ground arith)
has_pump-sends config (c ∷ cmds) rest h = refl

module _ (py : Builtins) (config : Config) (effects : DecideEffects) (s : State) (n : ℕ) where
  abbrev pub Decides : Event → Bool → Type 0
  Decides e brings =
      (t : Transition) × (m : ℕ) × (decide py s e config effects n ≡ returns (t, m))
      × Spawns s t brings

  pub observation-Spawns : (text buf : Text) → Decides (observation_captured text buf) true
  unfolding decide
  observation-Spawns text buf =
      (_, _, refl, record { status = refl; calm = (refl, tt); pump = refl })

  pub ack-Spawns : (seen : Bool) → Decides (command_acked seen) true
  unfolding decide
  ack-Spawns seen = (_, _, refl, record { status = refl; calm = (refl, tt); pump = refl })

  pub log-Spawns : (r : StepRecord) → Decides (step_logged r) false
  unfolding decide with_step
  log-Spawns r = (_, _, refl, record { status = refl; calm = tt; pump = refl })

  pub response-Spawns :
      (parsed : ParseResult) (usage : PlannerUsage)
      → GoesOn parsed
      → Decides (planner_responded parsed usage) true
  unfolding decide
  response-Spawns parsed usage on = rw on.open_task (
    _,
    _,
    refl,
    record {
      status = refl;
      calm = sends-IsCalm config parsed.commands _ usage;
      pump = has_pump-sends config parsed.commands _ on.acts;
    },
  )
