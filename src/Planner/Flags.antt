-- ===== src/Planner/Flags.antt =====
-- Which session options an attempt of the retry loop passes to the CLI.
use termiclaw.Prelude.{
  ℕ, Text, codes, nonempty, text_eq, List, [], ◌∷◌, Option, none, some, Bool, true, false, not,
  ◌&&◌, ◌==◌, ◌≡◌, refl, if◌then◌else◌,
}
use termiclaw.Planner.Usage.{build_session_args, attempt_args}

-- What a command line says of the session.
pub record Options : Type 0 where
  pub session_id : Option Text
  pub resume : Option Text
  pub fork_session : Bool

abbrev pub no_options : Options
no_options = record { session_id = none; resume = none; fork_session = false }

-- The reading of a command line: an option with a value takes the argument after it. `none` is an
-- argument that is no option, or an option without its value.
abbrev pub read_options : List Text → Options → Option Options
read_options [] o = some o
read_options (a ∷ []) o =
    if text_eq a (codes "--fork-session") then some (record o { fork_session = true }) else none
read_options (a ∷ b ∷ args) o =
    let as_id = read_options args (record o { session_id = some b }) in
    let as_resume = read_options args (record o { resume = some b }) in
    let as_fork = read_options (b ∷ args) (record o { fork_session = true }) in
    if text_eq a (codes "--session-id")
    then as_id
    else if text_eq a (codes "--resume")
    then as_resume
    else if text_eq a (codes "--fork-session")
    then as_fork
    else none

-- `if resume_parent`: a parent that is there and not empty.
abbrev pub has_parent : Option Text → Bool
has_parent none = false
has_parent (some p) = nonempty p

abbrev pub when : Bool → Option Text → Option Text
when b t = if b then t else none

-- The options that are meant: to create the session, to resume the parent or the session itself,
-- and to fork the parent.
abbrev pub session_options : Text → (creates : Bool) → Option Text → (forks : Bool) → Options
session_options id creates parent forks = record {
  session_id = when (not (has_parent parent) && nonempty id && creates) (some id);
  resume = if has_parent parent then parent else when (nonempty id && not creates) (some id);
  fork_session = has_parent parent && forks;
}

build_session_args_lem :
    (id : Text) (b : Bool) (parent : Option Text) (g : Bool)
    → read_options (build_session_args id b parent g) no_options
      ≡ some (session_options id b parent g)
unfolding build_session_args
build_session_args_lem [] true none g = refl
build_session_args_lem [] false none g = refl
build_session_args_lem [] true (some []) g = refl
build_session_args_lem [] false (some []) g = refl
build_session_args_lem (c ∷ id) true none g = refl
build_session_args_lem (c ∷ id) false none g = refl
build_session_args_lem (c ∷ id) true (some []) g = refl
build_session_args_lem (c ∷ id) false (some []) g = refl
build_session_args_lem id b (some (c ∷ p)) true = refl
build_session_args_lem id b (some (c ∷ p)) false = refl

-- The arguments of attempt k of a query, read as options with their values, say this and nothing
-- else: if a parent is named, the parent is resumed, and it is forked exactly at the first
-- attempt of a forking call; if none is named and there is an id, the session of that id is
-- created exactly at the first attempt of a first call, and resumed at every other one.
pub attempt_flags :
    (id : Text) (first : Bool) (parent : Option Text) (fork : Bool) (k : ℕ)
    → read_options (attempt_args id first parent fork k) no_options
      ≡ some (session_options id (first && (k == 0)) parent (fork && (k == 0)))
unfolding attempt_args
attempt_flags id first parent fork k =
    build_session_args_lem id (first && (k == 0)) parent (fork && (k == 0))
