-- ===== src/Artifacts.antt =====
-- artifacts.py: the four state-dump files of a run. A directory maps names to texts; a disk that
-- fails, and a file that is not UTF-8, are not modelled.
pub mod Writes
pub mod Refresh
use termiclaw.Prelude.{
  ℕ, ◌%◌, Text, codes, decimal, text_eq, or_text, join, List, [], ◌∷◌, ◌++◌, map, Option, none,
  some, nonempty, take, leb_ℤ, ◌==◌, if◌then◌else◌,
}
use termiclaw.Errors.{Raises, returns, raises, zero_division, json_error, type_error, unicode_error}
use termiclaw.Action.{Action}
use termiclaw.Python.{Builtins, Json, dict, Fields, get, json_text, Loaded, loaded, rejected}
use termiclaw.Model.{Config}
use termiclaw.State.{State}
use termiclaw.Container.{has_surrogate}
use termiclaw.Summarizer.{format_steps_text}

-- The files of a directory.
abbrev pub Dir : Type 0
Dir = Text → Option Text

unfoldable pub put : Dir → Text → Text → Dir
put d name content other = if text_eq other name then some content else d other

-- How far a write has come: nothing, and a character more each time.
unfoldable pub prefixes : Text → List Text
prefixes [] = [] ∷ []
prefixes (c ∷ t) = [] ∷ map (λ p. c ∷ p) (prefixes t)

-- What a call comes to, and the directories that it passes through, one after the other.
abbrev pub Passing : Type 0
Passing = Raises (Unit {0}) × List Dir

abbrev pub last_or : Dir → List Dir → Dir
last_or d [] = d
last_or d (u ∷ us) = last_or u us

-- `path.write_text`: the file is opened, which empties it, and then written; a lone surrogate has
-- no UTF-8.
unfoldable pub write_text : Dir → Text → Text → Passing
unfolding put
write_text d name content =
    if has_surrogate content
    then (raises unicode_error, put d name [] ∷ [])
    else (returns tt, map (put d name) (prefixes content))

-- `os.replace`: the target takes the content of the source, which is gone.
unfoldable pub replace : Dir → Text → Text → Dir
replace d source target other =
    if text_eq other target then d source else if text_eq other source then none else d other

-- The rows of `_ARTIFACT_FILES`.
abbrev pub artifact_files : List (Text × Text)
artifact_files =
    (codes "what_we_did", codes "WHAT_WE_DID.md")
    ∷ (codes "status", codes "STATUS.md")
    ∷ (codes "do_next", codes "DO_NEXT.md")
    ∷ (codes "plan", codes "PLAN.md")
    ∷ []

-- A file's text, empty if it is missing.
abbrev pub read_or_empty : Option Text → Text
read_or_empty none = []
read_or_empty (some t) = t

-- `read_existing`, as the texts by file name: `result[key]` is the text of the key's file.
unfoldable pub read_existing : Dir → Text × Text → Text
read_existing d (key, filename) = read_or_empty (d filename)

abbrev pub tmp_name : Text → Text
tmp_name name = name ++ codes ".tmp"

abbrev pub renamed : Raises (Unit {0}) → Dir → Text → List Dir
renamed (raises x) u name = []
renamed (returns _) u name = replace u (tmp_name name) name ∷ []

unfoldable pub write_atomic : Dir → Text → Text → Passing
write_atomic d name content =
    let tmp = write_text d (tmp_name name) content in
    (tmp.0, tmp.1 ++ renamed tmp.0 (last_or d tmp.1) name)

current_block : Dir → Text × Text → Text
unfolding read_existing
current_block d (key, filename) =
    codes "### Current "
    ++ (filename ++ (codes "\n" ++ or_text (read_existing d (key, filename)) (codes "(empty)")))

unfoldable pub build_prompt : Builtins → State → Dir → Text → Text
unfolding current_block
build_prompt py state existing visible_screen =
    let recent_text =
      or_text (format_steps_text py state.recent_steps)
        (codes "[" ++ (decimal state.current_step ++ codes " steps so far]")) in
    codes
      "You are consolidating the state of an autonomous terminal agent's run for handoff. Produce markdown content for four files. Keep each concise but complete.\n\nTask: "
    ++ (state.instruction
        ++ (codes "\n\nRecent interaction history:\n"
            ++ (recent_text
                ++ (codes "\n\nCurrent terminal state:\n"
                    ++ (visible_screen
                        ++ (codes
                              "\n\nExisting artifacts (update these rather than regenerate from scratch):\n\n"
                            ++ (join (codes "\n\n") (map (current_block existing) artifact_files)
                                ++ codes
                                    "\n\nRespond with a single JSON object:\n\n{\"what_we_did\": \"# What We Did\\n\\n- ...\", \"status\": \"# Status\\n\\n...\", \"do_next\": \"# Do Next\\n\\n1. ...\", \"plan\": \"# Plan\\n\\n...\"}")))))))

-- `str(obj.get(key, ""))`
abbrev pub text_at : Builtins → Option Json → Text
text_at py none = []
text_at py (some v) = json_text py v

-- `_parse_artifact_response`, as the text of each key.
abbrev pub texts_of : Builtins → Loaded → Raises (Text → Text)
texts_of py (rejected m) = raises json_error
texts_of py (loaded (dict d)) = returns (λ key. text_at py (get d key))
texts_of py (loaded v) = raises type_error

unfoldable pub parse_artifact_response : Builtins → Text → Raises (Text → Text)
parse_artifact_response py raw = texts_of py (py.loads raw)

-- The loop that writes the files.
abbrev pub and_then : Passing → Passing → Passing
and_then (raises x, us) rest = (raises x, us)
and_then (returns _, us) rest = (rest.0, us ++ rest.1)

unfoldable pub write_files : (Text → Text) → ℕ → List (Text × Text) → Dir → Passing
write_files texts limit [] d = (returns tt, [])
write_files texts limit ((key, filename) ∷ rest) d =
    let file = write_atomic d filename (take limit (texts key)) in
    and_then file (write_files texts limit rest (last_or d file.1))

-- The end of `refresh_artifacts`, with the parsed response.
abbrev pub written : {W : Type 0} → Config → Dir → Raises (Text → Text) → W → Passing × W
written config d (raises x) w = ((raises x, []), w)
written config d (returns texts) w =
    (write_files texts config.state_dump_max_chars_per_file artifact_files d, w)

abbrev pub answered : {W : Type 0} → Builtins → Config → Dir → Raises Text × W → Passing × W
answered py config d (raises x, w) = ((raises x, []), w)
answered py config d (returns raw, w) = written config d (parse_artifact_response py raw) w

unfoldable pub refresh_artifacts :
    {W : Type 0}
    → Builtins
    → State
    → Config
    → (visible_screen : Text) → (query_fn : Text → Action W Text) → Dir
    → W
    → Passing × W
refresh_artifacts py state config visible_screen query_fn d w =
    answered py config d (query_fn (build_prompt py state d visible_screen) w)

-- The remainder by an interval of 0 raises ZeroDivisionError.
unfoldable pub should_refresh : State → Config → Raises Text
should_refresh state config =
    if state.current_step == 0
    then returns []
    else if config.state_dump_interval_turns == 0
    then raises zero_division
    else if state.current_step % config.state_dump_interval_turns == 0
    then returns (codes "interval")
    else if leb_ℤ config.state_dump_token_threshold state.total_prompt_tokens
    then returns (codes "token_threshold")
    else returns []
