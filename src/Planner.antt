-- ===== src/Planner.antt =====
-- planner.py: the prompt of a turn. The reading of a response stands in Planner.Parse.
pub mod Parse
pub mod Usage
pub mod Flags
pub mod Bounds
pub mod RoundTrip
use termiclaw.Prelude.{
  ℕ, ◌/◌, max, Text, codes, [], ◌++◌, Option, none, some, nonempty, length, if◌then◌else◌,
}

abbrev pub prompt_version : Text
prompt_version = codes "2"

unfoldable pub estimate_tokens : Text → ℕ
estimate_tokens text = max 1 (length text / 4)

template_head : Text
template_head =
    codes
      "You are a terminal agent. You interact with a Linux/macOS terminal through a tmux session. You can only send keystrokes — you have no other tools.\n\nYour task:\n"

template_state : Text
template_state = codes "Current terminal state:\n"

template_tail : Text
template_tail =
    codes
      "\n\nRespond with a JSON object containing:\n\n1. \"analysis\": Brief analysis of the current terminal state and what has happened since your last action.\n\n2. \"plan\": Your plan for the next step(s) to accomplish the task.\n\n3. \"commands\": An array of commands to execute. Each command is an object with:\n   - \"keystrokes\": The exact text/keys to send to the terminal. Each command object should be ONE shell command or action. Include \\n at the end to press Enter. For special keys (C-c, C-d, Up, Down, Escape), use a separate command object with just the key name and no \\n.\n   - \"duration\": How long to wait (in seconds) after sending this command before capturing output. Guidelines: 0.1 for simple commands (ls, cat, echo), 0.5 for moderate commands (grep, find), 1.0-5.0 for compilation or installation, 10.0-30.0 for long-running tasks. Never exceed 60 seconds.\n\n4. \"task_complete\": Set to true ONLY when you are confident the task is fully completed. You will be asked to confirm.\n\nRespond ONLY with the JSON object. No markdown, no explanation outside the JSON.\n\nExample response:\n{\"analysis\": \"The shell is at a bash prompt.\", \"plan\": \"Check the project structure.\", \"commands\": [{\"keystrokes\": \"ls -la\\n\", \"duration\": 0.5}], \"task_complete\": false}\n"

qa_section : Option Text → Text
qa_section none = []
qa_section (some qa) =
    if nonempty qa
    then codes "Additional context (Q&A from prior summarization):\n" ++ (qa ++ codes "\n\n")
    else []

summary_section : Option Text → Option Text → Text
summary_section none qa_context = []
summary_section (some summary) qa_context =
    codes "Summary of progress so far:\n" ++ (summary ++ (codes "\n\n" ++ qa_section qa_context))

-- `_PROMPT_TEMPLATE.format(...)`
unfoldable pub build_prompt : Text → Text → Option Text → Option Text → Text
unfolding summary_section qa_section template_head template_state template_tail
build_prompt instruction terminal_state summary qa_context =
    template_head
    ++ (instruction
        ++ (codes "\n\n"
            ++ (summary_section summary qa_context
                ++ (template_state ++ (terminal_state ++ template_tail)))))
