-- ===== src/Tests/CliTests.antt =====
-- Commands on tables, and a printed list of tags.
use termiclaw.Prelude.{
  ℕ, ℤ, pos, ◌-◌, leb, ◌&&◌, true, Text, codes, List, [], ◌∷◌, Option, none, some, Bool, ◌≡◌, refl,
  ◌⊎◌, All, starts_with, one_of,
}
use termiclaw.Python.{Builtins}
use termiclaw.Trajectory.{splitlines, is_break}
use termiclaw.Database.Reports.{failure_histogram}
use termiclaw.Cli.Update.{parse_latest_tag, version_tuple}
use termiclaw.Cli.Update.Highest.{versions, IsHighest, parse_latest_tag-IsHighest}
use termiclaw.Cli.Tag.{TagArgs}
use termiclaw.Cli.Tag.Sound.{tag_all, Sound, Closed, tag_all-Closed}
use termiclaw.Tests.DatabaseTests.{with_other, a_minute}
use termiclaw.Tests.Fixtures.{py}

abbrev digit : ℕ → Bool
digit c = leb b'0' c && leb c b'9'

-- An `int` of one digit.
abbrev one_digit : Text → Option ℤ
one_digit (c ∷ []) = some (pos (c - 48))
one_digit _ = none

abbrev counting : Builtins
counting = record py { int_of_text = one_digit }

abbrev printed : Text
printed =
    codes
      "a1\trefs/tags/termiclaw-v1.2.3\nb2\trefs/tags/other\nc3\trefs/tags/termiclaw-v1.4.0\nd4\trefs/tags/termiclaw-v1.3.9\n"

latest_printed : parse_latest_tag counting digit printed ≡ codes "1.4.0"
unfolding parse_latest_tag splitlines is_break starts_with version_tuple
latest_printed = refl

parse_latest_tag-IsHighest_example :
    ((versions counting digit (splitlines printed) ≡ [])
      × (parse_latest_tag counting digit printed ≡ []))
    ⊎ ((one_of
            (parse_latest_tag counting digit printed)
            (versions counting digit (splitlines printed))
          ≡ true)
        × IsHighest counting digit
            (parse_latest_tag counting digit printed)
            (versions counting digit (splitlines printed)))
parse_latest_tag-IsHighest_example = parse_latest_tag-IsHighest counting digit printed

abbrev stuck : Text → TagArgs
stuck category = record { run_id = codes "oth"; category = category; step = some 3; note = none }

abbrev calls : List (TagArgs × Text)
calls =
    (stuck (codes "stuck_loop"), codes "2026-01-01")
    ∷ (stuck (codes "boredom"), codes "2026-01-02")
    ∷ (record (stuck (codes "timeout")) { run_id = codes "x" }, codes "2026-01-03")
    ∷ []

tag_all-Closed_example :
    All (Sound with_other) (tag_all a_minute with_other calls [])
    × All Closed (failure_histogram (tag_all a_minute with_other calls []) (some (codes "2026")))
tag_all-Closed_example = tag_all-Closed a_minute with_other calls (some (codes "2026"))
