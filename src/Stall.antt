-- ===== src/Stall.antt =====
-- stall.py: the detection of repeated observations and commands. Python's `re` and SHA-256 are
-- parameters.
pub mod Streaks
pub mod Response
use termiclaw.Prelude.{
  ℕ, ◌+◌, Text, codes, List, [], ◌∷◌, ◌++◌, map, Bool, true, false, ◌&&◌, ◌||◌, leb, text_eq,
  nonempty, if◌then◌else◌, join, strip, decimal, any_of,
}
use termiclaw.Model.{Config, ParsedCommand}
use termiclaw.State.{State, StallState}

-- The flags that the patterns are compiled with.
pub data Flag : Type 0 where
  no_flag ignore_case multi_line : Flag

-- `re` and `hashlib`: `pattern.sub(placeholder, text)`, whether `pattern.search(text)` finds a
-- match, and the hexadecimal SHA-256 of the UTF-8 of a text.
pub record Matching : Type 0 where
  pub sub : (pattern : Text) (flag : Flag) (placeholder text : Text) → Text
  pub search : (pattern : Text) (flag : Flag) (text : Text) → Bool
  pub hash : Text → Text

pub record Volatile : Type 0 where
  pub pattern : Text
  pub flag : Flag
  pub placeholder : Text

-- `_VOLATILE_PATTERNS`
volatile_patterns : List Volatile
volatile_patterns =
    record {
      pattern = codes "\\d{2}:\\d{2}:\\d{2}(?:\\.\\d+)?";
      flag = no_flag;
      placeholder = codes "TS";
    }
    ∷ record { pattern = codes "\\bpid[=: ]?\\d+"; flag = ignore_case; placeholder = codes "PID" }
    ∷ record { pattern = codes "\\b\\d+/\\d+\\b"; flag = no_flag; placeholder = codes "N/N" }
    ∷ record {
      pattern = codes "\\b\\d+(?:\\.\\d+)?\\s?(?:ms|s|KB|MB|GB|KiB|MiB|GiB)\\b";
      flag = no_flag;
      placeholder = codes "DUR";
    }
    ∷ record { pattern = codes "0x[0-9a-fA-F]{6,}"; flag = no_flag; placeholder = codes "ADDR" }
    ∷ []

-- The loop over the patterns.
substituted : Matching → List Volatile → Text → Text
substituted re [] result = result
substituted re (v ∷ vs) result = substituted re vs (re.sub v.pattern v.flag v.placeholder result)

unfoldable pub normalize_for_stall : Matching → Text → Text
unfolding substituted volatile_patterns
normalize_for_stall re text = substituted re volatile_patterns (strip text)

pub data ScreenClass : Type 0 where
  idle_shell less vim repl confirmation debugger unknown : ScreenClass

pub record Classifier : Type 0 where
  pub pattern : Text
  pub flag : Flag
  pub screen_class : ScreenClass

-- `_SCREEN_CLASSIFIERS`
screen_classifiers : List Classifier
screen_classifiers =
    record { pattern = codes "^:\\s*$"; flag = multi_line; screen_class = less }
    ∷ record {
      pattern = codes "^-- INSERT --|^-- NORMAL --|^:(q|w|wq|x)";
      flag = multi_line;
      screen_class = vim;
    }
    ∷ record {
      pattern = codes "^(>>>|In \\[\\d+\\]:|\\.\\.\\.)";
      flag = multi_line;
      screen_class = repl;
    }
    ∷ record {
      pattern = codes "\\[[Yy]/[Nn]\\]|\\(y/n\\)|\\(yes/no\\)|Proceed\\?|Continue\\?";
      flag = no_flag;
      screen_class = confirmation;
    }
    ∷ record {
      pattern = codes "^\\((gdb|lldb|Pdb|pdb)\\)\\s*$";
      flag = multi_line;
      screen_class = debugger;
    }
    ∷ []

-- The loop over the classifiers, and the test for a prompt after it: `$` is 36 and `#` is 35.
classified : Matching → Text → List Classifier → ScreenClass
classified re visible [] = if any_of 36 visible || any_of 35 visible then idle_shell else unknown
classified re visible (c ∷ cs) =
    let rest = classified re visible cs in
    if re.search c.pattern c.flag visible then c.screen_class else rest

unfoldable pub classify_screen : Matching → Text → ScreenClass
unfolding classified screen_classifiers
classify_screen re visible = classified re visible screen_classifiers

unfoldable pub hint_for : ScreenClass → Text
hint_for less = codes "The terminal appears to be inside 'less'. Press 'q' to exit."
hint_for vim =
    codes
      "The terminal appears to be inside 'vim'. Press Escape then ':q!' to quit without saving, or ':wq' to save and quit."
hint_for repl =
    codes
      "The terminal appears to be inside a REPL. Press Ctrl-D or type 'exit()' to return to the shell."
hint_for confirmation =
    codes "The terminal is waiting on a confirmation prompt. Answer 'y' or 'n' and press Enter."
hint_for debugger =
    codes "The terminal appears to be inside a debugger. Type 'quit' or press Ctrl-D to exit."
hint_for idle_shell = []
hint_for unknown = []

-- `StallSignal`; its NONE is `quiet`.
pub data StallSignal : Type 0 where
  quiet nudge_repeat nudge_no_progress force_interrupt : StallSignal

abbrev pub observation_hash : Matching → Text → Text
observation_hash re observation = re.hash (normalize_for_stall re observation)

abbrev pub commands_hash : Matching → List ParsedCommand → Text
commands_hash re commands = re.hash (join (codes "\n") (map (λ c. c.keystrokes) commands))

unfoldable pub detect_stall :
    Matching → State → Text → List ParsedCommand → Config → StallState × StallSignal
detect_stall re state observation commands config =
    let obs_hash = observation_hash re observation in
    let cmd_hash = commands_hash re commands in
    let old = state.stall in
    let new_obs_streak =
      if text_eq obs_hash old.last_observation_hash && nonempty old.last_observation_hash
      then old.identical_obs_streak + 1
      else 0 in
    let new_cmd_streak =
      if text_eq cmd_hash old.last_keystrokes_hash && nonempty cmd_hash
      then old.repeat_command_streak + 1
      else 0 in
    let new_stall = record old {
      identical_obs_streak = new_obs_streak;
      repeat_command_streak = new_cmd_streak;
      last_observation_hash = obs_hash;
      last_keystrokes_hash = cmd_hash;
    } in
    let force_threshold = config.stall_force_interrupt_after in
    (
      new_stall,
      if leb force_threshold new_cmd_streak || leb force_threshold new_obs_streak
          then force_interrupt
          else if leb config.stall_nudge_after new_cmd_streak
          then nudge_repeat
          else if leb config.stall_nudge_after new_obs_streak
          then nudge_no_progress
          else quiet,
    )

unfoldable pub nudge_text : StallSignal → ℕ → Text
nudge_text nudge_repeat streak =
    codes "[SYSTEM NOTICE: You have sent the same command "
    ++ (decimal streak
        ++ codes
            " turns in a row and the terminal has not changed. Try a different approach — inspect what actually happened, change the command, or send C-c to interrupt and retry.]\n")
nudge_text nudge_no_progress streak =
    codes "[SYSTEM NOTICE: The terminal output has not changed for "
    ++ (decimal streak
        ++ codes
            " turns. If a command is running, interrupt it with C-c and investigate. If you are inside an interactive program, exit it first.]\n")
nudge_text quiet streak = []
nudge_text force_interrupt streak = []
