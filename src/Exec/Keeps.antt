-- ===== src/Exec/Keeps.antt =====
-- Invariants of runs: a rule for each way in which a run is put together.
use blendersessiond.Base.{Bool, true, false, Option, none, some, if◌then◌else◌}
use blendersessiond.Base.{◌∷◌}
use blendersessiond.Exec.{
  World, Result, ok, err, M, Error, Event, pure, throw, lift, or_raise, system, observe, reads,
  rescue, continue, catch, writes, emit, ◌>>=◌, finally,
}

-- `m` keeps `P`, whether it returns or raises.
pub record Keeps {S D A : Type 0} (P : World S D → Type 0) (m : M S D A) : Type 0 where
  pub run : (w : World S D) → P w → P (m w).1

-- `P` does not depend on the state of the operating system.
abbrev pub IgnoresOs : {S D : Type 0} → (World S D → Type 0) → Type 0
IgnoresOs {S} {D} P = (w : World S D) (s : S) → P w → P (record w { os = s })

module _ {S D A : Type 0} {P : World S D → Type 0} where
  pub Keeps-pure : (a : A) → Keeps P (pure a)
  unfolding pure
  Keeps-pure a = record { run = λ w h. h }

  pub Keeps-throw : (e : Error) → Keeps P (throw {A = A} e)
  unfolding throw
  Keeps-throw e = record { run = λ w h. h }

  pub Keeps-lift : (r : Result A) → Keeps P (lift r)
  unfolding lift
  Keeps-lift r = record { run = λ w h. h }

  pub Keeps-or_raise : (o : Option A) (e : Error) → Keeps P (or_raise o e)
  unfolding or_raise
  Keeps-or_raise none e = record { run = λ w h. h }
  Keeps-or_raise (some a) e = record { run = λ w h. h }

  pub Keeps-reads : (f : D → A) → Keeps P (reads f)
  unfolding reads
  Keeps-reads f = record { run = λ w h. h }

  pub Keeps-observe : (f : S → A) → Keeps P (observe f)
  unfolding observe
  Keeps-observe f = record { run = λ w h. h }

  pub Keeps-system : IgnoresOs P → (f : S → A × S) → Keeps P (system f)
  unfolding system
  Keeps-system blind f = record { run = λ w h. blind w _ h }

  pub Keeps-if : (b : Bool) (m n : M S D A) → Keeps P m → Keeps P n → Keeps P (if b then m else n)
  Keeps-if true m n km kn = km
  Keeps-if false m n km kn = kn

  pub Keeps-catch :
      (m : M S D A) (handler : Error → M S D A)
      → Keeps P m
      → ((e : Error) → Keeps P (handler e))
      → Keeps P (catch m handler)
  unfolding catch
  Keeps-catch m handler km kh = record { run = λ w h. go (m w) (km.run w h) }
    where
      go : (o : Result A × World S D) → P o.1 → P (rescue o handler).1
      go (ok a, w') h = h
      go (err e, w') h = (kh e).run w' h

  pub Keeps-finally :
      (m : M S D A) (cleanup : World S D → World S D)
      → Keeps P m
      → ((w : World S D) → P w → P (cleanup w))
      → Keeps P (finally m cleanup)
  unfolding finally
  Keeps-finally m cleanup km kc = record { run = λ w h. kc _ (km.run w h) }

module _ {S D : Type 0} {P : World S D → Type 0} where
  pub Keeps-writes :
      (f : D → D) → ((w : World S D) → P w → P (record w { disk = f w.disk })) → Keeps P (writes f)
  unfolding writes
  Keeps-writes f kf = record { run = kf }

  pub Keeps-emit :
      (e : Event)
      → ((w : World S D) → P w → P (record w { events = e ∷ w.events }))
      → Keeps P (emit e)
  unfolding emit
  Keeps-emit e ke = record { run = ke }

module _ {S D A B : Type 0} {P : World S D → Type 0} where
  pub Keeps-bind :
      (m : M S D A) (f : A → M S D B) → Keeps P m → ((a : A) → Keeps P (f a)) → Keeps P (m >>= f)
  unfolding ◌>>=◌
  Keeps-bind m f km kf = record { run = λ w h. go (m w) (km.run w h) }
    where
      go : (o : Result A × World S D) → P o.1 → P (continue o f).1
      go (ok a, w') h = (kf a).run w' h
      go (err e, w') h = h

-- The rules that have no premise about `P`.
pub ruleset keeps_rules = (
  Keeps-pure, Keeps-throw, Keeps-lift, Keeps-or_raise, Keeps-reads, Keeps-observe, Keeps-if,
  Keeps-bind, Keeps-catch,
)
