-- ===== src/Trajectory/Lines.antt =====
-- trajectory.py: the lines of a file that append_step wrote.
use mathlib.Core.List.{reverse, reverse-cons}
use termiclaw.Prelude.{
  Text, List, [], ◌∷◌, ◌++◌, append_assoc, append-nil, some, map, false, ◌≡◌, refl, sym, ap, ◌∙◌,
  All,
}
use termiclaw.Model.{StepRecord}
use termiclaw.Python.{Json, dict}
use termiclaw.Trajectory.{
  is_break, lines_from, splitlines, step_to_dict, RunDir, append_step, text_or_empty,
}

-- Steps logged one after the other.
abbrev pub append_steps : (Json → Text) → RunDir → List StepRecord → RunDir
append_steps dumps d [] = d
append_steps dumps d (s ∷ ss) = append_steps dumps (append_step dumps d s) ss

abbrev pub line_of : (Json → Text) → StepRecord → Text
line_of dumps s = dumps (dict (step_to_dict s))

-- Lines, each with its end.
abbrev pub ended : List Text → Text
ended [] = []
ended (l ∷ ls) = (l ++ 10 ∷ []) ++ ended ls

abbrev pub Unbroken : Text → Type 0
Unbroken l = All (λ c. is_break c ≡ false) l

lines_from-ended :
    (line l rest : Text)
    → Unbroken l
    → lines_from line false ((l ++ 10 ∷ []) ++ rest)
      ≡ (reverse line ++ l) ∷ lines_from [] false rest
lines_from-ended line [] rest h =
    unfold is_break in ap (λ r. r ∷ lines_from [] false rest) (sym (append-nil (reverse line)))
lines_from-ended line (c ∷ l) rest (now, later) = rw now (
    lines_from-ended (c ∷ line) l rest later
    ∙ ap (λ r. r ∷ lines_from [] false rest)
        (ap (λ r. r ++ l) (reverse-cons c line) ∙ append_assoc (reverse line) (c ∷ []) l))

pub splitlines-ended : (ls : List Text) → All Unbroken ls → splitlines (ended ls) ≡ ls
unfolding splitlines
splitlines-ended [] h = refl
splitlines-ended (l ∷ ls) (now, later) =
    lines_from-ended [] l (ended ls) now ∙ ap (λ r. l ∷ r) (splitlines-ended ls later)

pub append_steps-trajectory :
    (dumps : Json → Text) (d : RunDir) (steps : List StepRecord) (t : Text)
    → d.trajectory ≡ some t
    → (append_steps dumps d steps).trajectory ≡ some (t ++ ended (map (line_of dumps) steps))
unfolding append_step
append_steps-trajectory dumps d [] t e = e ∙ ap some (sym (append-nil t))
append_steps-trajectory dumps d (s ∷ ss) t e =
    append_steps-trajectory dumps (append_step dumps d s) ss (t ++ (line_of dumps s ++ 10 ∷ []))
      (ap (λ o. some (text_or_empty o ++ (line_of dumps s ++ 10 ∷ []))) e)
    ∙ ap some (append_assoc t (line_of dumps s ++ 10 ∷ []) (ended (map (line_of dumps) ss)))
