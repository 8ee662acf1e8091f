-- ===== src/Cli.antt =====
-- cli.py: what the commands decide and write, over what the modules that they call give.
pub mod Update
pub mod Tag
pub mod Fork
pub mod Show
pub mod Eval
use termiclaw.Prelude.{ℕ, Text, codes, ◌++◌}

-- How a command ends: it returns, or calls `sys.exit(1)`; both with what it wrote to stderr.
pub data Ending (A : Type 0) : Type 0 where
  done : (stderr : Text) → A → Ending A
  exited : (stderr : Text) → Ending A
