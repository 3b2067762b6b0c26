-- ===== src/Exec/Ensures.antt =====
-- What holds of the value of a fallible function.
use mathlib.Core.Path.{subst}
use blendersessiond.Base.{◌≡◌, refl}
use blendersessiond.Exec.{Error, Result, ok, err}

abbrev bind : {A B : Type 0} → Result A → (A → Result B) → Result B
bind (ok a) f = f a
bind (err e) f = err e

-- If it is a value, then one in `P`.
abbrev pub Ensures : {A : Type 0} → (A → Type 0) → Result A → Type 0
Ensures {A} P r = (a : A) → r ≡ ok a → P a

pub Ensures-bind :
    {A B : Type 0} {P : B → Type 0} (m : Result A) (f : A → Result B)
    → ((a : A) → m ≡ ok a → Ensures P (f a))
    → Ensures P (bind m f)
Ensures-bind (ok a) f h b eq = h a refl b eq
Ensures-bind (err e) f h b eq = cc

pub Ensures-ok : {A : Type 0} (P : A → Type 0) (a : A) → P a → Ensures P (ok a)
Ensures-ok P a h b eq = subst P (ok_injective eq) h
  where
    ok_injective : ok a ≡ ok b → a ≡ b
    ok_injective eq = cc

pub Ensures-err : {A : Type 0} (P : A → Type 0) (e : Error) → Ensures P (err e)
Ensures-err P e b eq = cc
