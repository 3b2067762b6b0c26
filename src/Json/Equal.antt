-- ===== src/Json/Equal.antt =====
-- Python's `==` on the values of `json.loads`. A dict equals a dict with the same entries in any
-- order; `True == 1`, and `1.0 == 1`, where the text of a float is its `repr`.
use blendersessiond.Base.{
  ℕ, suc, String, ◌<>◌, show, Bool, true, false, ◌&&◌, ◌==◌, none, some, str_eq, ℤ, pos, negsuc,
  int_eq,
}
use blendersessiond.Json.{
  Json, null, bool, int, float, str, arr, obj, Items, nil, cons, Fields, end, field, get,
}

abbrev pub bool_int : Bool → ℤ
bool_int true = pos 1
bool_int false = pos 0

abbrev float_text : ℤ → String
float_text (pos n) = show n <> ".0"
float_text (negsuc n) = "-" <> show (suc n) <> ".0"

abbrev pub bool_eq : Bool → Bool → Bool
bool_eq true b = b
bool_eq false true = false
bool_eq false false = true

unfoldable pub size : Fields → ℕ
size end = 0
size (field k v rest) = suc (size rest)

unfoldable mutual
  unfolding size

  pub json_eq : Json → Json → Bool
  json_eq null null = true
  json_eq (bool a) (bool b) = bool_eq a b
  json_eq (bool a) (int z) = int_eq (bool_int a) z
  json_eq (int z) (bool b) = int_eq z (bool_int b)
  json_eq (int y) (int z) = int_eq y z
  json_eq (int z) (float t) = str_eq (float_text z) t
  json_eq (float t) (int z) = str_eq t (float_text z)
  json_eq (float s) (float t) = str_eq s t
  json_eq (str s) (str t) = str_eq s t
  json_eq (arr xs) (arr ys) = items_eq xs ys
  json_eq (obj a) (obj b) = size a == size b && within a b
  json_eq _ _ = false

  pub items_eq : Items → Items → Bool
  items_eq nil nil = true
  items_eq (cons x xs) (cons y ys) = json_eq x y && items_eq xs ys
  items_eq _ _ = false

  -- Each entry of the first dict is in the second.
  pub within : Fields → Fields → Bool
  within end b = true
  within (field k v rest) b = elim (get k b) [
    | none ↦ false
    | some w ↦ json_eq v w && within rest b
  ]

-- `a == b` on dicts
unfoldable pub dict_eq : Fields → Fields → Bool
unfolding json_eq
dict_eq a b = json_eq (obj a) (obj b)
