-- ===== src/Python.antt =====
-- What the program takes from Python: decoded JSON, `repr`, `json.loads`, and `int` of a text.
use termiclaw.Prelude.{
  ℤ, pos, Text, codes, Bool, Option, none, some, text_eq, if◌then◌else◌, List, [], ◌∷◌,
}
use termiclaw.Float.{Float, nan, neg_inf, inf, finite, ticks, truncate, float_of_int}
use termiclaw.Errors.{Raises, returns, raises, value_error, overflow, type_error}

-- A value of `json.loads`. A dict keeps the order of its keys.
mutual
  pub data Json : Type 0 where
    null : Json
    boolean : Bool → Json
    int : ℤ → Json
    float : Float → Json
    str : Text → Json
    list : Items → Json
    dict : Fields → Json

  pub data Items : Type 0 where
    nil : Items
    cons : Json → Items → Items

  pub data Fields : Type 0 where
    end : Fields
    field : Text → Json → Fields → Fields

-- `d.get(k)`
unfoldable pub get : Fields → Text → Option Json
get end k = none
get (field j v d) k = if text_eq j k then some v else get d k

-- `list(d.keys())`
unfoldable pub keys : Fields → List Text
keys end = []
keys (field k v d) = k ∷ keys d

-- `json.loads` gives a value, or raises `JSONDecodeError` with a message.
pub data Loaded : Type 0 where
  loaded : Json → Loaded
  rejected : Text → Loaded

-- The parts of Python whose text is not in the repository. Nothing is assumed of them.
pub record Builtins : Type 0 where
  pub repr : Json → Text
  pub repr_text : Text → Text
  pub str_float : Float → Text
  pub loads : Text → Loaded
  pub int_of_text : Text → Option ℤ
  pub float_of_text : Text → Option Float

-- `str(value)` of a decoded value.
unfoldable pub json_text : Builtins → Json → Text
json_text py (str t) = t
json_text py v = py.repr v

-- `type(value).__name__`
unfoldable pub type_name : Json → Text
type_name null = codes "NoneType"
type_name (boolean b) = codes "bool"
type_name (int z) = codes "int"
type_name (float x) = codes "float"
type_name (str t) = codes "str"
type_name (list l) = codes "list"
type_name (dict d) = codes "dict"

-- `int(value)`: `none` of a text is ValueError.
unfoldable pub int_of : Builtins → Json → Raises ℤ
int_of py (boolean b) = returns (pos (if b then 1 else 0))
int_of py (int z) = returns z
int_of py (float nan) = raises value_error
int_of py (float neg_inf) = raises overflow
int_of py (float inf) = raises overflow
int_of py (float (finite z)) = returns (truncate z)
int_of py (str t) = elim (py.int_of_text t) [ none ↦ raises value_error | some z ↦ returns z ]
int_of py _ = raises type_error

-- `float(value)`
unfoldable pub float_of : Builtins → Json → Raises Float
float_of py (boolean b) = returns (finite (pos (if b then ticks else 0)))
float_of py (int z) = elim (float_of_int z) [ none ↦ raises overflow | some x ↦ returns x ]
float_of py (float x) = returns x
float_of py (str t) = elim (py.float_of_text t) [ none ↦ raises value_error | some x ↦ returns x ]
float_of py _ = raises type_error
