-- ===== src/Tests/TaskTests.antt =====
-- Tasks written and loaded, and their check.
use termiclaw.Prelude.{pos, codes, [], ◌∷◌, none, some, true, ◌≡◌, refl, ◌↔◌, map}
use termiclaw.Float.{finite}
use termiclaw.Errors.{ok, returns}
use termiclaw.Verifier.{Search, VerifierSpec, VerifierResult, exited, verdict}
use termiclaw.Verifier.Accepts.{Accepts, verdict-Accepts}
use termiclaw.TaskFile.{TaskSpec, load_tasks_dir}
use termiclaw.TaskFile.RoundTrip.{entry_of, load_tasks_dir-encode}
use termiclaw.Tests.Fixtures.{py}

abbrev pub prints_done : VerifierSpec
prints_done = record {
  command = codes "cat out";
  expected_exit = pos 0;
  expected_output_pattern = some (codes "done");
  timeout_seconds = finite (pos 30);
}

abbrev pub always : Search
always p t = ok true

abbrev good : VerifierResult
good = record {
  passed = true;
  actual_exit = pos 0;
  actual_output = codes "done";
  elapsed_seconds = finite (pos 1);
  reason = codes "pass";
}

verdict-Accepts_example :
    (good.passed ≡ true) ↔ Accepts always prints_done (exited (pos 0) (codes "done"))
unfolding verdict
verdict-Accepts_example =
    verdict-Accepts always prints_done (finite (pos 1)) (exited (pos 0) (codes "done")) good refl

abbrev pub checked : TaskSpec
checked = record {
  name = codes "a";
  instruction = codes "write done to out";
  verifier = some prints_done;
}

abbrev unchecked : TaskSpec
unchecked = record { name = codes "b"; instruction = codes "look around"; verifier = none }

load_tasks_dir-encode_example :
    load_tasks_dir py (codes "tasks") (some (map entry_of (checked ∷ unchecked ∷ [])))
    ≡ returns (ok (checked ∷ unchecked ∷ []))
load_tasks_dir-encode_example =
    load_tasks_dir-encode py (codes "tasks") (checked ∷ unchecked ∷ []) (refl, (tt, tt))
