-- ===== src/Trajectory/Budget.antt =====
-- trajectory.py: the budget of read_trajectory_text.
use termiclaw.Prelude.{
  ℕ, ◌+◌, ◌≤◌, Text, codes, strip, join, List, [], ◌∷◌, Option, none, some, length, Bool, true,
  false, ◌≡◌, refl, arith, ltb, if◌then◌else◌,
}
use mathlib.Core.List.{reverse, reverse_aux}
use termiclaw.Errors.{Raises, returns, raises, attribute_error}
use termiclaw.Python.{Builtins, dict, Loaded, loaded, rejected}
use termiclaw.Trajectory.{RunDir, entry_part, parts_from, joined, splitlines, read_trajectory_text}

abbrev pub chars : List Text → ℕ
chars [] = 0
chars (p ∷ ps) = length p + chars ps

chars-reverse_aux : (ps qs : List Text) → chars (reverse_aux ps qs) ≡ chars ps + chars qs
chars-reverse_aux [] qs = omega arith
chars-reverse_aux (p ∷ ps) qs = omega (arith, chars-reverse_aux ps (p ∷ qs))

-- What is collected, with the `total` of before, stays within the budget.
abbrev Within : ℕ → ℕ → Raises (List Text) → Type 0
Within max_chars total (raises x) = Unit {0}
Within max_chars total (returns parts) = total + chars parts ≤ max_chars

collected-Within :
    (max_chars total : ℕ) (part : Text) (over : Bool) (rest : Raises (List Text))
    → ltb max_chars (total + length part) ≡ over
    → total ≤ max_chars
    → (total + length part ≤ max_chars → Within max_chars (total + length part) rest)
    → Within max_chars total (
        if over
        then returns []
        else elim rest [ raises x ↦ raises x | returns parts ↦ returns (part ∷ parts) ])
collected-Within max_chars total part true rest e within later = omega arith
collected-Within max_chars total part false (raises x) e within later = tt
collected-Within max_chars total part false (returns parts) e within later =
    let small : total + length part ≤ max_chars = ground arith in
    let bound = later small in omega arith

parts_from-Within :
    (py : Builtins) (max_chars total : ℕ) (lines : List Text)
    → total ≤ max_chars
    → Within max_chars total (parts_from py max_chars total lines)
parts_from-Within py max_chars total [] within = omega arith
parts_from-Within py max_chars total (line ∷ lines) within =
    by_entry (py.loads line) (parts_from-Within py max_chars total lines within)
      (λ part. parts_from-Within py max_chars (total + length part) lines)
  where
    by_entry :
        (l : Loaded)
        → Within max_chars total (parts_from py max_chars total lines)
        → ((part : Text)
            → total + length part ≤ max_chars
            → Within max_chars
                (total + length part)
                (parts_from py max_chars (total + length part) lines))
        → Within max_chars total (elim l [
          | rejected m ↦ parts_from py max_chars total lines
          | loaded (dict entry) ↦
              let part = entry_part py entry in
              let rest = parts_from py max_chars (total + length part) lines in
              if ltb max_chars (total + length part)
              then returns []
              else elim rest [ raises x ↦ raises x | returns parts ↦ returns (part ∷ parts) ]
          | loaded v ↦ raises attribute_error
        ])
    by_entry (rejected m) skip more = skip
    by_entry (loaded (dict entry)) skip more =
        let part = entry_part py entry in
        collected-Within max_chars total part (ltb max_chars (total + length part))
          (parts_from py max_chars (total + length part) lines) refl within (more part)
    by_entry (loaded v) skip more = tt

-- The paragraphs of a text, without what joins them.
abbrev pub Budgeted : ℕ → Raises Text → Type 0
Budgeted max_chars (raises x) = Unit {0}
Budgeted max_chars (returns t) =
    (parts : List Text) × (t ≡ join (codes "\n\n") parts) × (chars parts ≤ max_chars)

joined-Budgeted :
    (max_chars : ℕ) (o : Raises (List Text)) → Within max_chars 0 o → Budgeted max_chars (joined o)
joined-Budgeted max_chars (raises x) h = tt
joined-Budgeted max_chars (returns parts) h =
    (reverse parts, refl, omega (arith, chars-reverse_aux parts []))

-- If the summary of a trajectory is returned, it is paragraphs joined by blank lines, and the
-- paragraphs together have at most max_chars characters.
pub read_trajectory_text-Budgeted :
    (py : Builtins) (d : RunDir) (max_chars : ℕ)
    → Budgeted max_chars (read_trajectory_text py d max_chars)
unfolding read_trajectory_text join
read_trajectory_text-Budgeted py d max_chars = by_file d.trajectory
  where
    by_file :
        (f : Option Text)
        → Budgeted max_chars (elim f [
          | none ↦ returns []
          | some t ↦ joined (parts_from py max_chars 0 (reverse (splitlines (strip t))))
        ])
    by_file none = ([], refl, omega arith)
    by_file (some t) =
        joined-Budgeted max_chars (parts_from py max_chars 0 (reverse (splitlines (strip t))))
          (parts_from-Within py max_chars 0 (reverse (splitlines (strip t))) (omega arith))
