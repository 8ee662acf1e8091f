-- ===== src/Tests/RuntimeTests.antt =====
-- Steps logged, and keys sent, over the default ports.
use termiclaw.Prelude.{ℕ, pos, codes, List, [], ◌∷◌, ◌++◌, none, true}
use termiclaw.Float.{finite}
use termiclaw.Errors.{returns}
use termiclaw.Event.{Command, force_interrupt}
use termiclaw.Decide.{zero_usage}
use termiclaw.Shell.{apply}
use termiclaw.Planner.Usage.{finished}
use termiclaw.Summarizer.Worker.{new_worker}
use termiclaw.Runtime.{Outside, World}
use termiclaw.Runtime.Wired.{build_default_ports}
use termiclaw.Runtime.Log.{Entry}
use termiclaw.Runtime.Keys.{Told, apply-Told}
use termiclaw.Tests.DatabaseTests.{with_other}
use termiclaw.Tests.Fixtures.{py, config, start, done_step}
use termiclaw.Tests.ProcessTests.{clock}

abbrev outside : Outside ℕ
outside = record {
  host = clock;
  patience = 4;
  claude = λ timeout args prompt w. (returns (finished (pos 0) (codes "{}") []), w);
  py = py;
  dumps = λ j. codes "line";
  dumps_indented = λ j. codes "text";
  str_exception = λ x. codes "?";
  cost_sum = λ run_id rows. finite (pos 0);
  thread_done = λ job w. true;
  under = λ path name. path ++ (codes "/" ++ name);
}

abbrev world : World ℕ
world = record {
  outside = 3;
  db = with_other;
  runs = λ path. record { run_json = none; trajectory = none };
  artifacts = λ path name. none;
  worker = new_worker;
  held = start;
}

abbrev entries : List Entry
entries =
    (1, done_step, zero_usage) ∷ (2, record done_step { step_id = codes "t" }, zero_usage) ∷ []

apply-Told_example :
    Told
      (apply
        (build_default_ports outside config)
        py
        (Command.send_keys (codes "ls") (finite (pos 3)))
        start
        (codes "runs/run")
        config
        world).0
    × Told
        (apply
          (build_default_ports outside config)
          py
          (force_interrupt (codes "stalled"))
          start
          (codes "runs/run")
          config
          world).0
apply-Told_example =
    apply-Told outside config start (codes "runs/run") (codes "ls") (finite (pos 3))
      (codes "stalled") world
