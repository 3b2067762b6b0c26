-- ===== src/Base/Dict.antt =====
-- A dict of texts, such as an environment: the first entry of a key counts.
use Prim.Native.String.{String}
use mathlib.Core.Path.{◌≡◌, refl}
use mathlib.Core.Option.{Option, none, some}
use mathlib.Core.List.{List, [], ◌∷◌}
use native.Mathlib.Omega.{arith}
use text.Mathlib.Text.{◌==◌ as str_eq}
use text.Mathlib.TextEquality.{eq_iff}
use package.blendersessiond.Base.Tests.{if◌then◌else◌}

abbrev pub Environ : Type 0
Environ = List (String × String)

-- `environ.get(key)`
unfoldable pub lookup : String → Environ → Option String
lookup k [] = none
lookup k ((j, v) ∷ rest) = if str_eq j k then some v else lookup k rest

-- `environ[key] = value`
unfoldable pub insert : String → String → Environ → Environ
insert k v [] = (k, v) ∷ []
insert k v ((j, w) ∷ rest) = if str_eq j k then (k, v) ∷ rest else (j, w) ∷ insert k v rest

pub lookup-insert :
    (k j v : String) (d : Environ)
    → lookup j (insert k v d) ≡ (if str_eq k j then some v else lookup j d)
unfolding lookup insert
lookup-insert k j v [] = refl
lookup-insert k j v ((i, w) ∷ rest) =
    ground (arith, eq_iff k j, eq_iff i k, eq_iff i j, lookup-insert k j v rest)
