-- ===== src/Json/Strict.antt =====
-- What `_strict_json` of src/blendersessiond/setup_owner.py refuses: an object with a key twice, and
-- a number that is not finite.
use blendersessiond.Base.{String, Bool, true, not, ◌&&◌, List, [], ◌∷◌, str_in}
use blendersessiond.Json.{Json, float, arr, obj, Items, nil, cons, Fields, end, field}

unfoldable pub keys : Fields → List String
keys end = []
keys (field k v rest) = k ∷ keys rest

unfoldable mutual
  unfolding keys

  pub is_strict : Json → Bool
  is_strict (float t) = not (str_in t ("NaN" ∷ "Infinity" ∷ "-Infinity" ∷ []))
  is_strict (arr xs) = strict_items xs
  is_strict (obj fields) = strict_fields fields
  is_strict _ = true

  pub strict_items : Items → Bool
  strict_items nil = true
  strict_items (cons x xs) = is_strict x && strict_items xs

  pub strict_fields : Fields → Bool
  strict_fields end = true
  strict_fields (field k v rest) = not (str_in k (keys rest)) && (is_strict v && strict_fields rest)
