-- ===== src/Cli/Eval.antt =====
-- cli.py: the loop of the command `eval`, over the agent's run.
use termiclaw.Prelude.{
  ℕ, zero, suc, ◌+◌, ◌*◌, Text, List, [], ◌∷◌, length, ◌≡◌, refl, ◌∙◌, subst, arith,
}
use termiclaw.Errors.{Raises, returns, raises}
use termiclaw.Action.{Action, continue, pure, ◌>>=◌}
use termiclaw.Model.{Config}
use termiclaw.State.{State, RunStatus, active, succeeded, failed, cancelled}
use termiclaw.TaskFile.{TaskSpec}

-- The arguments that the loop reads.
pub record EvalArgs : Type 0 where
  pub repeat : ℕ
  pub max_turns : ℕ
  pub network : Text

-- A row of the table, or the totals.
pub record Counts : Type 0 where
  pub passed : ℕ
  pub failed : ℕ

abbrev pub counted : RunStatus → Counts → Counts
counted succeeded n = record n { passed = n.passed + 1 }
counted _ n = record n { failed = n.failed + 1 }

abbrev pub with_row : Counts → Counts → Counts
with_row row totals = record {
  passed = totals.passed + row.passed;
  failed = totals.failed + row.failed;
}

module _ {W : Type 0} (agent_run : Config → Action W State) (defaults : Config)
    (args : EvalArgs) where
  abbrev pub eval_config : TaskSpec → Config
  eval_config task = record defaults {
    instruction = task.instruction;
    max_turns = args.max_turns;
    docker_network = args.network;
  }

  -- `for _ in range(args.repeat)`
  abbrev pub repeated : ℕ → TaskSpec → Counts → Action W Counts
  repeated zero task n = pure n
  repeated (suc left) task n = do
    state ← agent_run (eval_config task)
    repeated left task (counted state.status n)

  -- The rows, and the totals so far.
  abbrev pub eval_tasks : List TaskSpec → Counts → Action W (List (Text × Counts) × Counts)
  eval_tasks [] totals = pure ([], totals)
  eval_tasks (task ∷ tasks) totals = do
    row ← repeated args.repeat task (record { passed = 0; failed = 0 })
    (rows, all) ← eval_tasks tasks (with_row row totals)
    pure ((task.name, row) ∷ rows, all)

abbrev pub tried : Counts → ℕ
tried n = n.passed + n.failed

-- What a computation returns, if it returns.
abbrev pub Returned : {A : Type 0} → (A → Type 0) → Raises A → Type 0
Returned P (raises x) = Unit {0}
Returned P (returns a) = P a

continue-Returned :
    {W A B : Type 0} (P : B → Type 0) (r : Raises A) (f : A → Action W B) (w : W)
    → ((a : A) → r ≡ returns a → Returned P (f a w).0)
    → Returned P (continue r f w).0
continue-Returned P (raises x) f w h = tt
continue-Returned P (returns a) f w h = h a refl

tried-counted : (s : RunStatus) (n : Counts) → tried (counted s n) ≡ suc (tried n)
tried-counted active n = omega arith
tried-counted succeeded n = omega arith
tried-counted failed n = omega arith
tried-counted cancelled n = omega arith

module _ {W : Type 0} (agent_run : Config → Action W State) (defaults : Config)
    (args : EvalArgs) where
  repeated-tried :
      (left : ℕ) (task : TaskSpec) (n : Counts) (w : W)
      → Returned (λ m. tried m ≡ tried n + left) (repeated agent_run defaults args left task n w).0
  repeated-tried zero task n w = omega arith
  repeated-tried (suc left) task n w =
      let ran = agent_run (eval_config agent_run defaults args task) w in
      continue-Returned (λ m. tried m ≡ tried n + suc left) ran.0
        (λ state. repeated agent_run defaults args left task (counted state.status n)) ran.1
        (λ state e.
          let one = tried-counted state.status n in
          subst
            (λ k.
              Returned (λ m. tried m ≡ k)
                (repeated agent_run defaults args left task (counted state.status n) ran.1).0)
            (omega arith) (repeated-tried left task (counted state.status n) ran.1))

  abbrev pub Sum : List TaskSpec → Counts → List (Text × Counts) × Counts → Type 0
  Sum tasks totals r = tried r.1 ≡ tried totals + args.repeat * length tasks

  abbrev no_counts : Counts
  no_counts = record { passed = 0; failed = 0 }

  -- If the runs of all tasks return, whatever status they end with: the totals count every run,
  -- args.repeat for each task, once, as passed or as failed.
  pub eval_tasks-tried :
      (tasks : List TaskSpec) (totals : Counts) (w : W)
      → Returned (Sum tasks totals) (eval_tasks agent_run defaults args tasks totals w).0
  eval_tasks-tried [] totals w = omega arith
  eval_tasks-tried (task ∷ tasks) totals w =
      let row_run = repeated agent_run defaults args args.repeat task no_counts w in
      continue-Returned (Sum (task ∷ tasks) totals) row_run.0
        (λ row. eval_tasks agent_run defaults args tasks (with_row row totals) >>= λ r.
          pure ((task.name, row) ∷ r.0, r.1))
        row_run.1
        (λ row e.
          let own : tried row ≡ args.repeat =
            subst (Returned (λ m. tried m ≡ 0 + args.repeat)) e
              (repeated-tried args.repeat task no_counts w)
            ∙ omega arith in
          let rest_run = eval_tasks agent_run defaults args tasks (with_row row totals) row_run.1 in
          continue-Returned (Sum (task ∷ tasks) totals) rest_run.0
            (λ r. pure ((task.name, row) ∷ r.0, r.1)) rest_run.1
            (λ r e'.
              let later =
                subst (Returned (Sum tasks (with_row row totals))) e'
                  (eval_tasks-tried tasks (with_row row totals) row_run.1) in
              added (length tasks) row r.1 totals own later))
    where
      added :
          (k : ℕ) (row all totals : Counts)
          → tried row ≡ args.repeat
          → tried all ≡ tried (with_row row totals) + args.repeat * k
          → tried all ≡ tried totals + args.repeat * suc k
      added k row all totals own h = omega arith
