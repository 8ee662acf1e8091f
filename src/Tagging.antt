-- ===== src/Tagging.antt =====
-- tagging.py: the closed set of failure categories.
use termiclaw.Prelude.{Text, codes, one_of, List, [], ◌∷◌, map, Bool}

pub data FailureCategory : Type 0 where
  premature_completion parse_failure wrong_command stuck_loop : FailureCategory
  timeout hallucination container_error verifier_failure : FailureCategory

abbrev pub category_text : FailureCategory → Text
category_text premature_completion = codes "premature_completion"
category_text parse_failure = codes "parse_failure"
category_text wrong_command = codes "wrong_command"
category_text stuck_loop = codes "stuck_loop"
category_text timeout = codes "timeout"
category_text hallucination = codes "hallucination"
category_text container_error = codes "container_error"
category_text verifier_failure = codes "verifier_failure"

-- The members, in the order of the class.
abbrev pub members : List FailureCategory
members =
    premature_completion ∷ parse_failure ∷ wrong_command ∷ stuck_loop ∷ timeout ∷ hallucination
    ∷ container_error ∷ verifier_failure ∷ []

unfoldable pub valid_categories : List Text
valid_categories = map category_text members

unfoldable pub is_valid_category : Text → Bool
unfolding valid_categories
is_valid_category value = one_of value valid_categories
