-- ===== src/Lib.antt =====
-- termiclaw: an agent that works on a task in a tmux session. The program is a functional core under
-- an imperative shell. The core `decide` takes the state of a run and one event, and gives the next
-- state and the commands to carry out; the shell `apply` carries out one command through the ports
-- and gives the event that comes of it; the loop of agent.py feeds each to the other.
--
-- The parts, and the code that they model:
--   Prelude    lists, texts and integers of Python, and the notation that all parts share
--   Float      Python's float, exactly, as far as the program compares and converts floats
--   Errors     termiclaw/errors.py, termiclaw/result.py; exceptions as values
--   Python     decoded JSON, and what is taken from Python as a parameter (`Builtins`)
--   Model      termiclaw/models.py
--   State      termiclaw/state.py
--   Event      termiclaw/events.py, termiclaw/commands.py, termiclaw/transitions.py
--   Summarizer termiclaw/summarizer.py; Summarizer.Worker termiclaw/summarize_worker.py
--   Core       termiclaw/agent_core.py; its stall helpers stand in Stall.Response
--   Stall      termiclaw/stall.py
--   Planner    termiclaw/planner.py: Planner the prompt, Planner.Parse the response, Planner.Usage
--              the usage, the session arguments and the retry loop
--   Validate   termiclaw/validate.py
--   Decide     termiclaw/decide.py, every handler under its name without the underscore
--   Action     actions on a world that return or raise
--   Ports      termiclaw/ports.py, a record for each protocol, over any world
--   Shell      termiclaw/shell.py, every handler under its name without the underscore
--   Agent      termiclaw/agent.py: `_run_turns` is run_turns, `_drive` is drive, and its `while`
--              loop drive_loop; Agent.Run is `run`, with provisioning and teardown
--   Container  termiclaw/container.py: the splitting of keys, truncation, the diff of two captures;
--              Container.Process what it does through docker and tmux, Container.Files the
--              calls that nothing else uses
--   Verifier   termiclaw/verifier.py
--   TaskFile   termiclaw/task_file.py
--   Mcts       termiclaw/mcts.py: the tree; Mcts.Playout a playout and the search
--   Artifacts  termiclaw/artifacts.py
--   Trajectory termiclaw/trajectory.py: the files of a run; Trajectory.Runs the list of runs
--   Atif       termiclaw/atif.py
--   Runtime    termiclaw/runtime.py: the world that the default ports share, and what they do to it;
--              Runtime.Wired the bundle of build_default_ports
--   Database   termiclaw/db.py: the tables of runs, steps and commands; Database.Query the queries of
--              runs and usage, Database.Steps those of steps, Database.Reports the other ones;
--              Database.Search the tables of the tree search and of failure tags; Database.Store
--              is what the tables stand for; Database.Bind the statements that write, with what they
--              raise; Database.Schema the tables and indexes that init_db makes
--   Cli        termiclaw/cli.py: Cli.Tag the commands tag and failures, Cli.Fork the command fork,
--              Cli.Show what show, run and status read, Cli.Eval the loop of eval, Cli.Update the
--              check for a newer version
--   Tagging    termiclaw/tagging.py
--   Tests      concrete inputs
--
-- A function keeps the name and the order of its arguments; keyword arguments stand in the order of
-- their declaration. The frozen dataclasses are records, and `replace` is a record update. A union
-- of events or commands is a data type with a constructor for each dataclass. `Result` is a data
-- type. A raise is the value `raises`; a handler that catches it is a match. A text is the list of
-- its code points, so `len`, slices and comparison count code points as Python does, and a byte
-- count is that of UTF-8.
--
-- The ids and times that `decide` draws are the numbered calls of two functions, so a transition
-- also hands on how many calls were made. The loop has the world as its state: what docker, tmux,
-- the Claude CLI, the file system, SQLite and the worker thread do is what the ports do to it. The
-- one-cell handle of agent.py, which the summarizer's query function reads, is written by `hold`.
-- The background worker has a step of its own: the thread completes the job in flight at once, at
-- any point between two calls.
--
-- Fuel: drive_loop has fuel for each command that it applies, and `none` is fuel that ran out. The
-- source has no bound there. A queue that is drained in a terminal state needs as much fuel as it
-- has commands; in an active state the fuel that is enough depends on the planner. The binary search
-- of the container has fuel of the text's length and two more, since its interval, of length + 1
-- places, loses one in each round; the splitting has that of the text's length, since each chunk
-- takes a character. The retry loop of the planner is recursion on the attempts left.
-- The descent of the tree search has fuel of one round more than the tree has nodes, which is
-- enough; the way up has that of the number of nodes. The polling loop has fuel for each round; how
-- much is enough depends on the clock. The search is run with one worker, the default of the command
-- line; the counters of the tree are over any interleaving of what workers do under the lock.
--
-- A wait for the terminal over the default ports has fuel for the rounds after which the user
-- interrupts it; a wait that runs out raises KeyboardInterrupt.
--
-- Not modelled: the logging, and of the command line the parsing of arguments, the layout of what is
-- printed, the drawing of a search tree, the writing of exports, and the checks that docker and the
-- CLI are there; of the database the connection. Processes, json.loads and
-- json.dumps, repr, str of a float, the arithmetic of floats but addition, Python's `re`, SHA-256,
-- ISO times and the sum of the costs in SQLite are parameters. A disk that fails is not modelled.
-- Integers of the configuration that count or bound something are natural numbers.
pub mod Prelude
pub mod Float
pub mod Errors
pub mod Python
pub mod Model
pub mod State
pub mod Event
pub mod Summarizer
pub mod Core
pub mod Stall
pub mod Planner
pub mod Decide
pub mod Action
pub mod Ports
pub mod Shell
pub mod Runtime
pub mod Agent
pub mod Validate
pub mod Container
pub mod Verifier
pub mod TaskFile
pub mod Mcts
pub mod Artifacts
pub mod Trajectory
pub mod Atif
pub mod Database
pub mod Tagging
pub mod Cli
pub mod Tests
