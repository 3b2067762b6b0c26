-- ===== src/Exec/Ends.antt =====
-- What holds of the result and of the state when a run returns.
use blendersessiond.Base.{◌≡◌, refl, Bool, true, false, List, if◌then◌else◌}
use blendersessiond.Exec.{
  World, Result, ok, err, M, Error, Lock, pure, throw, lift, rescue, catch, continue, ◌>>=◌,
  file_lock,
}

abbrev pub Ended : {S D A : Type 0} → (A → World S D → Type 0) → Result A × World S D → Type 0
Ended Q (ok a, w) = Q a w
Ended Q (err e, w) = Unit

-- If `m` returns, then with a result and in a state that satisfy `Q`.
pub record Ends {S D A : Type 0} (Q : A → World S D → Type 0) (m : M S D A) : Type 0 where
  pub run : (w : World S D) → Ended Q (m w)

module _ {S D A : Type 0} {Q : A → World S D → Type 0} where
  pub Ends-pure : (a : A) → ((w : World S D) → Q a w) → Ends Q (pure a)
  unfolding pure
  Ends-pure a h = record { run = h }

  pub Ends-throw : (e : Error) → Ends Q (throw e)
  unfolding throw
  Ends-throw e = record { run = λ w. tt }

  pub Ends-if : (b : Bool) (m n : M S D A) → Ends Q m → Ends Q n → Ends Q (if b then m else n)
  Ends-if true m n hm hn = hm
  Ends-if false m n hm hn = hn

  pub Ends-lift : (r : Result A) → ((a : A) → r ≡ ok a → (w : World S D) → Q a w) → Ends Q (lift r)
  unfolding lift
  Ends-lift (ok a) h = record { run = h a refl }
  Ends-lift (err e) h = record { run = λ w. tt }

  pub Ends-catch :
      (m : M S D A) (handler : Error → M S D A)
      → Ends Q m
      → ((e : Error) → Ends Q (handler e))
      → Ends Q (catch m handler)
  unfolding catch
  Ends-catch m handler hm hh = record { run = λ w. go (m w) (hm.run w) }
    where
      go : (o : Result A × World S D) → Ended Q o → Ended Q (rescue o handler)
      go (ok a, w) q = q
      go (err e, w) q = (hh e).run w

  pub Ends-file_lock :
      (l : Lock) (m : M S D A)
      → ((a : A) (w : World S D) (held : List Lock) → Q a w → Q a (record w { held = held }))
      → Ends Q m
      → Ends Q (file_lock l m)
  unfolding file_lock
  Ends-file_lock l m blind h = record { run = λ w. go _ (h.run _) }
    where
      go :
          (o : Result A × World S D)
          → Ended Q o
          → Ended Q (o.0, record (o.1) { held = blendersessiond.Exec.without l o.1.held })
      go (ok a, w) q = blind a w _ q
      go (err e, w) q = tt

module _ {S D A B : Type 0} {Q : B → World S D → Type 0} where
  -- The end of a run decides.
  pub Ends-bind : (m : M S D A) (f : A → M S D B) → ((a : A) → Ends Q (f a)) → Ends Q (m >>= f)
  unfolding ◌>>=◌
  Ends-bind m f h = record { run = λ w. go (m w) }
    where
      go : (o : Result A × World S D) → Ended Q (continue o f)
      go (ok a, w) = (h a).run w
      go (err e, w) = tt

  -- What holds after the first part is there for the second.
  pub Ends-then :
      {P : A → World S D → Type 0} (m : M S D A) (f : A → M S D B)
      → Ends P m
      → ((a : A) (w : World S D) → P a w → Ended Q (f a w))
      → Ends Q (m >>= f)
  unfolding ◌>>=◌
  Ends-then {P = P} m f hm hf = record { run = λ w. go (m w) (hm.run w) }
    where
      go : (o : Result A × World S D) → Ended P o → Ended Q (continue o f)
      go (ok a, w) p = hf a w p
      go (err e, w) p = tt

-- The rules without a premise about `Q`.
pub ruleset ends_rules = (Ends-throw, Ends-if, Ends-bind)
