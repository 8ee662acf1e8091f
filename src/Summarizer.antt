-- ===== src/Summarizer.antt =====
-- summarizer.py: the text that stands for recent steps, and the three queries of a summarization.
pub mod Worker
pub mod Queue
use termiclaw.Prelude.{
  ℤ, Text, codes, List, [], ◌∷◌, ◌++◌, map, Option, none, some, nonempty, take, drop, length,
  starts_with, if◌then◌else◌, join, leb_ℤ, Bool,
}
use termiclaw.Python.{Builtins}
use termiclaw.Model.{ParsedCommand, StepRecord}
use termiclaw.Action.{Action, pure, ◌>>=◌}

pub should_summarize : ℤ → ℤ → Bool
should_summarize total_prompt_tokens threshold = leb_ℤ threshold total_prompt_tokens

-- `if x` for an optional text: present and not empty.
abbrev pub truthy : Option Text → Text
truthy none = []
truthy (some t) = t

abbrev new_output : Text
new_output = codes "New Terminal Output:\n"

abbrev current_screen : Text
current_screen = codes "Current Terminal Screen:\n"

-- The loop over the two prefixes, which stops at the first that fits.
without_prefix : Text → Text
without_prefix obs =
    if starts_with obs new_output
    then drop (length new_output) obs
    else if starts_with obs current_screen
    then drop (length current_screen) obs
    else obs

command_line : Builtins → ParsedCommand → Text
command_line py cmd =
    codes "  Command: "
    ++ (py.repr_text cmd.keystrokes
        ++ (codes " (wait " ++ (py.str_float cmd.duration ++ codes "s)")))

header_line : StepRecord → Text
header_line step =
    let header = codes "[Step " ++ (take 8 step.step_id ++ codes "]") in
    if nonempty (truthy step.analysis)
    then header ++ (codes " Analysis: " ++ truthy step.analysis)
    else header

output_lines : StepRecord → List Text
output_lines step =
    if nonempty step.observation
    then (codes "  Output: " ++ take 200 (without_prefix step.observation)) ∷ []
    else []

error_lines : StepRecord → List Text
error_lines step =
    if nonempty (truthy step.error) then (codes "  Error: " ++ truthy step.error) ∷ [] else []

format_step : Builtins → StepRecord → Text
format_step py step = join (codes "\n") (
    header_line step
    ∷ (map (command_line py) step.commands ++ (output_lines step ++ error_lines step)))

unfoldable pub format_steps_text : Builtins → List StepRecord → Text
unfolding format_step header_line output_lines error_lines command_line without_prefix
format_steps_text py steps = join (codes "\n\n") (map (format_step py) steps)

-- The prompts of the three subagents.
summary_prompt : Text → Text → Text
summary_prompt instruction recent =
    codes
      "Summarize the following agent interaction comprehensively.\nCover: major actions taken, important information discovered, challenging problems encountered, current status.\n\nTask: "
    ++ (instruction ++ (codes "\n\nInteraction history:\n" ++ recent))

question_prompt : Text → Text → Text → Text
question_prompt instruction summary visible =
    codes
      "Given this task and summary, generate at least 5 questions about critical information that might be missing from the summary.\n\nTask: "
    ++ (instruction
        ++ (codes "\n\nSummary: "
            ++ (summary ++ (codes "\n\nCurrent terminal screen: " ++ visible))))

answer_prompt : Text → Text → Text → Text
answer_prompt questions full summary =
    codes
      "Answer each of these questions in detail based on the interaction history.\n\nQuestions: "
    ++ (questions
        ++ (codes "\n\nInteraction history:\n" ++ (full ++ (codes "\n\nSummary: " ++ summary))))

unfoldable pub run_summarization :
    {W : Type 0}
    → (instruction recent_steps_text full_steps_text visible_screen : Text) → (Text → Action W Text)
    → Action W (Text × Text)
unfolding summary_prompt question_prompt answer_prompt
run_summarization instruction recent full visible query_fn = do
  summary ← query_fn (summary_prompt instruction recent)
  questions ← query_fn (question_prompt instruction summary visible)
  answers ← query_fn (answer_prompt questions full summary)
  pure (summary, codes "Questions:\n" ++ (questions ++ (codes "\n\nAnswers:\n" ++ answers)))
