-- ===== src/Cli/Update.antt =====
-- cli.py: the check for a newer version.
pub mod Highest
use termiclaw.Prelude.{
  ℕ, ℤ, pos, leb_ℤ, int_laws, Text, codes, starts_with, drop, length, nonempty, List, [], ◌∷◌, ◌++◌,
  Option, none, some, Bool, true, false, not, ◌&&◌, ◌||◌, ◌==◌, ◌≡◌, refl, sym, ap, ◌∙◌, subst,
  arith, All, inl, inr, Bool-cases, if◌then◌else◌,
}
use termiclaw.Python.{Builtins}
use termiclaw.Trajectory.{splitlines}

-- `text.split(c)`
abbrev pub split_on : ℕ → Text → List Text
split_on c [] = [] ∷ []
split_on c (d ∷ t) = if d == c then [] ∷ split_on c t else in_first d (split_on c t)
  where
    in_first : ℕ → List Text → List Text
    in_first d [] = (d ∷ []) ∷ []
    in_first d (p ∷ ps) = (d ∷ p) ∷ ps

abbrev pub ints : Builtins → List Text → Option (List ℤ)
ints py [] = some []
ints py (p ∷ ps) = elim (py.int_of_text p) [
  | none ↦ none
  | some z ↦ elim (ints py ps) [ none ↦ none | some zs ↦ some (z ∷ zs) ]
]

abbrev pub or_zero : Option (List ℤ) → List ℤ
or_zero none = pos 0 ∷ []
or_zero (some zs) = zs

unfoldable pub version_tuple : Builtins → Text → List ℤ
version_tuple py ver = or_zero (ints py (split_on b'.' ver))

-- Python's `a < b` of two tuples of ints.
abbrev pub tuple_lt : List ℤ → List ℤ → Bool
tuple_lt a [] = false
tuple_lt [] (y ∷ b) = true
tuple_lt (x ∷ a) (y ∷ b) = not (leb_ℤ y x) || (leb_ℤ x y && tuple_lt a b)

module _ (py : Builtins) (is_decimal : ℕ → Bool) where
  -- `\d+`
  abbrev pub all_decimal : Text → Bool
  all_decimal [] = true
  all_decimal (c ∷ t) = is_decimal c && all_decimal t

  abbrev pub number : Text → Bool
  number t = nonempty t && all_decimal t

  -- `\d+\.\d+\.\d+`
  abbrev pub three_numbers : List Text → Bool
  three_numbers (a ∷ b ∷ c ∷ []) = number a && (number b && number c)
  three_numbers _ = false

  -- `_TAG_PATTERN.search`: the group, at the first place where the pattern fits.
  abbrev pub tag_version : Text → Option Text
  tag_version [] = none
  tag_version (c ∷ t) =
      let later = tag_version t in
      let rest = drop (length (codes "refs/tags/termiclaw-v")) (c ∷ t) in
      if starts_with (c ∷ t) (codes "refs/tags/termiclaw-v") && three_numbers (split_on b'.' rest)
      then some rest
      else later

  abbrev pub second_field : List Text → Option Text
  second_field (a ∷ b ∷ rest) = some b
  second_field _ = none

  abbrev pub version_in : Option Text → Option Text
  version_in none = none
  version_in (some ref) = tag_version ref

  -- The version on a line of the output.
  abbrev pub line_version : Text → Option Text
  line_version line = version_in (second_field (split_on b'\t' line))

  abbrev pub better : Text → Text → Text
  better best candidate =
      if not (nonempty best) || tuple_lt (version_tuple py best) (version_tuple py candidate)
      then candidate
      else best

  abbrev pub improved : Text → Option Text → Text
  improved best none = best
  improved best (some candidate) = better best candidate

  abbrev pub latest_of : Text → List Text → Text
  latest_of best [] = best
  latest_of best (line ∷ lines) = latest_of (improved best (line_version line)) lines

  unfoldable pub parse_latest_tag : Text → Text
  parse_latest_tag ls_remote_output = latest_of [] (splitlines ls_remote_output)

  -- The notice of `_finish_update_check`, for a process that has finished.
  unfoldable pub update_notice : (returncode_ok : Bool) → (local_version stdout : Text) → Text
  update_notice ok local_version stdout =
      let remote = parse_latest_tag stdout in
      if ok
        && nonempty local_version
        && nonempty remote
        && tuple_lt (version_tuple py local_version) (version_tuple py remote)
      then codes "\nUpdate available: "
        ++ local_version
        ++ codes " -> "
        ++ remote
        ++ codes "\nRun: uv tool upgrade termiclaw\n"
      else []
