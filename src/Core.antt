-- ===== src/Core.antt =====
-- agent_core.py: the pure tests and texts that the loop uses. The stall helpers stand in Stall.
use termiclaw.Prelude.{◌%◌, Text, codes, text_eq, [], ◌++◌, Bool, leb_ℤ, ◌==◌, if◌then◌else◌}
use termiclaw.Float.{Float, float_bool, min_float}
use termiclaw.Errors.{Raises, returns, raises, zero_division}
use termiclaw.Python.{Builtins}
use termiclaw.Model.{Config, ParsedCommand}
use termiclaw.State.{State}

unfoldable pub should_summarize : State → Config → Bool
should_summarize state config = leb_ℤ config.summarization_token_threshold state.total_prompt_tokens

-- The remainder by an interval of 0 raises ZeroDivisionError.
unfoldable pub artifact_refresh_trigger : State → Config → Raises Text
artifact_refresh_trigger state config =
    if state.current_step == 0
    then returns []
    else if config.state_dump_interval_turns == 0
    then raises zero_division
    else if state.current_step % config.state_dump_interval_turns == 0
    then returns (codes "interval")
    else if leb_ℤ config.state_dump_token_threshold state.total_prompt_tokens
    then returns (codes "token_threshold")
    else returns []

unfoldable pub format_blocking_timeout_notice : Builtins → Config → Text
format_blocking_timeout_notice py config =
    codes "[SYSTEM NOTICE: Your command ran for more than "
    ++ (py.str_float config.blocking_max_seconds
        ++ codes
            "s without emitting the completion marker. It may still be running or it may be hung. Consider C-c if it is stuck.]\n")

unfoldable pub format_completion_confirmation_prompt : Text → Text
format_completion_confirmation_prompt visible_screen =
    visible_screen
    ++ codes
        "\n\nIMPORTANT: You previously indicated task_complete=true. If the task is truly done, respond with task_complete=true again to confirm. If you need to do more work, set task_complete=false and provide commands."

unfoldable pub termination_reason : Text → Text
termination_reason status =
    if text_eq status (codes "succeeded")
    then codes "task_complete_confirmed"
    else if text_eq status (codes "cancelled")
    then codes "keyboard_interrupt"
    else if text_eq status (codes "failed")
    then codes "max_turns_or_failure"
    else codes "unknown"

-- `cmd.duration or blocking_max_seconds`, then the smaller of the two.
unfoldable pub clamp_command_wait : ParsedCommand → Float → Float
clamp_command_wait cmd blocking_max_seconds =
    let duration = if float_bool cmd.duration then cmd.duration else blocking_max_seconds in
    min_float duration blocking_max_seconds
