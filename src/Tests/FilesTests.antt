-- ===== src/Tests/FilesTests.antt =====
-- The files of a run: artifacts refreshed, and a trajectory written, read and exported.
use termiclaw.Prelude.{
  pos, Text, codes, text_eq, false, inr, List, [], ◌∷◌, ◌++◌, none, some, strip, ◌≡◌, refl, All,
  if◌then◌else◌,
}
use termiclaw.Float.{finite, ticks}
use termiclaw.Errors.{returns, ok}
use termiclaw.Model.{StepRecord, MetricValue}
use termiclaw.Python.{Builtins, Json, str, dict, field, end, loaded}
use termiclaw.Artifacts.{Dir, artifact_files, write_files}
use termiclaw.Artifacts.Refresh.{OldOrNew, write_files-OldOrNew}
use termiclaw.Trajectory.{RunDir, step_to_dict, write_run_metadata, is_break, read_trajectory_text}
use termiclaw.Trajectory.Lines.{append_steps}
use termiclaw.Trajectory.Budget.{Budgeted, read_trajectory_text-Budgeted}
use termiclaw.Atif.{export_run}
use termiclaw.Atif.RoundTrip.{Logged, new_dir, exported_run, meta, export_run-written}
use termiclaw.Tests.Fixtures.{py, start, done_step}

-- A directory with a status and a file of another name.
abbrev before : Dir
before name =
    if text_eq name (codes "STATUS.md")
    then some (codes "old")
    else if text_eq name (codes "notes")
    then some (codes "kept")
    else none

abbrev answer : Text → Text
answer key = codes "# " ++ key

write_files-OldOrNew_example :
    All
      (λ u. All (OldOrNew answer 4 before u) artifact_files)
      (write_files answer 4 artifact_files before).1
write_files-OldOrNew_example = write_files-OldOrNew answer 4 before

-- Python whose `loads` reads any text as one object.
abbrev reader : Json → Builtins
reader v = record py { loads = λ t. loaded v }

abbrev plan_only : Json
plan_only = dict (field (codes "plan") (str (codes "next")) end)

abbrev one_line : RunDir
one_line = record { run_json = none; trajectory = some (codes "{}\n") }

read_trajectory_text-Budgeted_example :
    Budgeted 9 (read_trajectory_text (reader (dict end)) one_line 9)
read_trajectory_text-Budgeted_example = read_trajectory_text-Budgeted (reader (dict end)) one_line 9

-- Python that writes steps as "step" and metadata as "run", and reads them back.
abbrev dumps : Json → Text
dumps v = codes "step"

-- A step with a command, as decide logs it.
abbrev agent_step : StepRecord
agent_step = record done_step {
  source = codes "agent";
  task_complete = false;
  commands = record { keystrokes = codes "ls"; duration = finite (pos ticks) } ∷ [];
  metrics =
      (codes "prompt_tokens", MetricValue.int (pos 7))
      ∷ (codes "prompt_version", MetricValue.str (codes "v1"))
      ∷ [];
}

abbrev files : Builtins
files = record py {
  loads = λ t. loaded (
      if text_eq t (codes "step")
      then dict (step_to_dict agent_step)
      else dict (meta py (λ v. codes "run") start (codes "later") (codes "succeeded")));
}

logged : Logged files dumps agent_step
unfolding is_break strip
logged = ((refl, (refl, (refl, (refl, tt)))), refl, refl, refl, inr (pos 7, codes "v1", refl))

export_run-written_example :
    export_run files (codes "run") (codes "runs/run") (
      some (
        write_run_metadata
          (λ v. codes "run")
          (append_steps dumps new_dir (agent_step ∷ agent_step ∷ []))
          start
          (some (codes "later"))
          (some (codes "succeeded"))))
    ≡ returns (ok (exported_run start (codes "later") (agent_step ∷ agent_step ∷ [])))
export_run-written_example =
    export_run-written files (λ v. codes "run") start (codes "later") (codes "succeeded") dumps
      (codes "runs/run") (codes "run") (agent_step ∷ agent_step ∷ []) refl (logged, (logged, tt))

-- Two runs, the older first, and a directory without metadata.
abbrev two_dirs : List RunDir
two_dirs =
    record { run_json = some (codes "2026-01-01"); trajectory = none }
    ∷ record { run_json = some (codes "2026-01-02"); trajectory = none }
    ∷ record { run_json = none; trajectory = none }
    ∷ []

-- Python that reads a text as the metadata of a run that started then.
abbrev starts : Builtins
starts = record py { loads = λ t. loaded (dict (field (codes "started_at") (str t) end)) }
