-- ===== src/Stall/Response.antt =====
-- agent_core.py: what the loop makes of a stall signal.
use termiclaw.Prelude.{
  ◌++◌, Text, codes, List, Bool, false, leb, ltb, decimal, nonempty, if◌then◌else◌,
}
use termiclaw.Model.{Config, ParsedCommand}
use termiclaw.State.{State, StallState}
use termiclaw.Stall.{
  Matching, StallSignal, detect_stall, nudge_repeat, nudge_no_progress, force_interrupt, nudge_text,
  classify_screen, hint_for,
}

unfoldable detect_stall_for_commands :
    Matching → State → Text → List ParsedCommand → Config → StallState × StallSignal
detect_stall_for_commands re state output commands config =
    detect_stall re state output commands config

unfoldable pub should_force_interrupt : State → Config → StallSignal → Bool
should_force_interrupt state config force_interrupt =
    ltb state.stall.forced_interrupts config.max_forced_interrupts_per_run
should_force_interrupt state config _ = false

unfoldable pub forced_interrupt_exhausted : State → Config → StallSignal → Bool
forced_interrupt_exhausted state config force_interrupt =
    leb config.max_forced_interrupts_per_run state.stall.forced_interrupts
forced_interrupt_exhausted state config _ = false

unfoldable pub format_nudge_for_observation : StallSignal → State → Text
format_nudge_for_observation nudge_repeat state =
    nudge_text nudge_repeat state.stall.repeat_command_streak
format_nudge_for_observation nudge_no_progress state =
    nudge_text nudge_no_progress state.stall.identical_obs_streak
format_nudge_for_observation _ state = codes ""

pub format_force_interrupt_notice : Config → Text
format_force_interrupt_notice config =
    codes "[SYSTEM NOTICE: I sent C-c because you appeared stuck for "
    ++ (decimal config.stall_force_interrupt_after
        ++ codes " turns. If you are inside an interactive program, exit it and reassess.]\n")

unfoldable pub apply_nudge : Text → StallSignal → State → Text
apply_nudge output signal state = format_nudge_for_observation signal state ++ output

unfoldable pub prepend_screen_hint : Matching → Text → Text
prepend_screen_hint re output =
    let hint = hint_for (classify_screen re output) in
    if nonempty hint then codes "[HINT: " ++ (hint ++ (codes "]\n" ++ output)) else output
