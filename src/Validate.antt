-- ===== src/Validate.antt =====
-- validate.py: the checks that narrow a decoded value, each a value or a `ParseError`.
use termiclaw.Prelude.{
  ℤ, Text, codes, ◌++◌, or_text, take, Option, none, some, Bool, ◌⊎◌, inl, inr, ◌≡◌, refl,
}
use termiclaw.Float.{Float}
use termiclaw.Errors.{Result, ok, err, ParseError, Exception, Raises, returns, raises}
use termiclaw.Python.{
  Builtins, Json, boolean, int, float, str, list, dict, Items, nil, Fields, get, Loaded, loaded,
  rejected, type_name, float_of,
}

-- What a check gives. `Validated` may raise as well: `float` of a huge int does.
abbrev pub Checked : Type 0 → Type 0
Checked A = Result A ParseError

abbrev pub Validated : Type 0 → Type 0
Validated A = Raises (Checked A)

infixl 5 ◌>>=◌
abbrev pub ◌>>=◌ : {A B : Type 0} → Validated A → (A → Validated B) → Validated B
returns (ok a) >>= f = f a
returns (err e) >>= f = returns (err e)
raises x >>= f = raises x

abbrev pub parse_error : Text → Text → Text → ParseError
parse_error field reason raw = record { field = field; reason = reason; raw = raw }

abbrev pub expected : Text → Json → Text
expected what v = codes "expected " ++ (what ++ (codes ", got " ++ type_name v))

unfoldable pub require_dict : Builtins → Json → Text → Text → Checked Fields
require_dict py (dict d) field raw = ok d
require_dict py v field raw =
    err (parse_error field (expected (codes "object") v) (or_text raw (py.repr v)))

require_loaded : Builtins → Text → Loaded → Checked Fields
unfolding require_dict
require_loaded py text (rejected m) =
    err (parse_error (codes "<root>") (codes "invalid JSON: " ++ m) (take 500 text))
require_loaded py text (loaded v) = require_dict py v (codes "<root>") text

unfoldable pub require_json_object : Builtins → Text → Checked Fields
unfolding require_loaded
require_json_object py text = require_loaded py text (py.loads text)

module _ (py : Builtins) (d : Fields) (field : Text) where
  -- The error of a field that is there with another type, and of one that is not there.
  abbrev wrong : {A : Type 0} → Text → Json → Checked A
  wrong what v = err (parse_error field (expected what v) (py.repr (dict d)))

  abbrev absent : {A : Type 0} → Checked A
  absent = err (parse_error field (codes "missing required field") (py.repr (dict d)))

  narrow_str : Checked Text → Option Json → Checked Text
  narrow_str default none = default
  narrow_str default (some (str t)) = ok t
  narrow_str default (some v) = wrong (codes "string") v

  unfoldable pub required_str : Checked Text
  unfolding narrow_str
  required_str = narrow_str absent (get d field)

  unfoldable pub optional_str : Text → Checked Text
  unfolding narrow_str
  optional_str default = narrow_str (ok default) (get d field)

  narrow_bool : Checked Bool → Option Json → Checked Bool
  narrow_bool default none = default
  narrow_bool default (some (boolean b)) = ok b
  narrow_bool default (some v) = wrong (codes "bool") v

  unfoldable pub required_bool : Checked Bool
  unfolding narrow_bool
  required_bool = narrow_bool absent (get d field)

  unfoldable pub optional_bool : Bool → Checked Bool
  unfolding narrow_bool
  optional_bool default = narrow_bool (ok default) (get d field)

  -- `float(value)` of an int is the one check that can raise.
  narrow_float : Float → Option Json → Validated Float
  narrow_float default none = returns (ok default)
  narrow_float default (some (boolean b)) = returns (wrong (codes "number") (boolean b))
  narrow_float default (some (int z)) = elim (float_of py (int z)) [
    | raises x ↦ raises x
    | returns a ↦ returns (ok a)
  ]
  narrow_float default (some (float x)) = returns (ok x)
  narrow_float default (some v) = returns (wrong (codes "number") v)

  unfoldable pub optional_float : Float → Validated Float
  unfolding narrow_float float_of
  optional_float default = narrow_float default (get d field)

  narrow_int : Option Json → Checked ℤ
  narrow_int none = absent
  narrow_int (some (int z)) = ok z
  narrow_int (some v) = wrong (codes "int") v

  unfoldable pub required_int : Checked ℤ
  unfolding narrow_int
  required_int = narrow_int (get d field)

  narrow_list : Checked Items → Option Json → Checked Items
  narrow_list default none = default
  narrow_list default (some (list items)) = ok items
  narrow_list default (some v) = wrong (codes "list") v

  unfoldable pub required_list : Checked Items
  unfolding narrow_list
  required_list = narrow_list absent (get d field)

  unfoldable pub optional_list : Checked Items
  unfolding narrow_list
  optional_list = narrow_list (ok nil) (get d field)

-- To split on the outcome of a check and keep the equation.
pub Checked-cases :
    {A : Type 0} (r : Checked A) → ((a : A) × (r ≡ ok a)) ⊎ ((e : ParseError) × (r ≡ err e))
Checked-cases (ok a) = inl (a, refl)
Checked-cases (err e) = inr (e, refl)

-- How a check that may raise ended.
pub data Ended {A : Type 0} (r : Validated A) : Type 0 where
  value : (a : A) → r ≡ returns (ok a) → Ended r
  error : (e : ParseError) → r ≡ returns (err e) → Ended r
  raised : (x : Exception) → r ≡ raises x → Ended r

pub ended : {A : Type 0} (r : Validated A) → Ended r
ended (returns (ok a)) = value a refl
ended (returns (err e)) = error e refl
ended (raises x) = raised x refl
