-- ===== src/Json.antt =====
-- JSON values as `json.loads` gives them and `json.dump` takes them, and the reads of a dict that
-- the program makes. A dict has one value for each key; the order of its keys is not observed.
pub mod Equal
pub mod Strict
use blendersessiond.Base.{ℤ, String, Bool, Option, none, some, str_eq, if◌then◌else◌}

mutual
  pub data Json : Type 0 where
    null : Json
    bool : Bool → Json
    int : ℤ → Json
    float : String → Json
    str : String → Json
    arr : Items → Json
    obj : Fields → Json

  pub data Items : Type 0 where
    nil : Items
    cons : Json → Items → Items

  pub data Fields : Type 0 where
    end : Fields
    field : String → Json → Fields → Fields

-- `payload.get(key)`, where `none` is a missing key
unfoldable pub get : String → Fields → Option Json
get k end = none
get k (field j v rest) = if str_eq k j then some v else get k rest

-- `isinstance(value, str)`
abbrev pub as_str : Option Json → Option String
as_str (some (str s)) = some s
as_str _ = none

-- `isinstance(value, int)` for a value that is no bool
abbrev pub as_int : Option Json → Option ℤ
as_int (some (int z)) = some z
as_int _ = none

-- A file that is read as JSON, or the exception of the attempt: an `OSError` or `JSONDecodeError`,
-- another `ValueError` (of the decoder, or of an integer with too many digits), or the
-- `RecursionError` of deep nesting.
pub data File : Type 0 where
  bad not_parsed nested_too_deep : String → File
  holds : Json → File
