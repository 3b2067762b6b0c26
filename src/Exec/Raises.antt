-- ===== src/Exec/Raises.antt =====
-- Which exceptions a run may end with: a rule for each way in which a run is put together.
use blendersessiond.Base.{◌≡◌, refl, Bool, true, false, if◌then◌else◌}
use blendersessiond.Exec.{
  World, Result, ok, err, M, Error, Event, Lock, pure, throw, lift, system, observe, reads, writes,
  emit, rescue, continue, catch, ◌>>=◌, file_lock,
}

abbrev pub Allowed : {A : Type 0} → (Error → Type 0) → Result A → Type 0
Allowed E (ok a) = Unit
Allowed E (err e) = E e

-- From any state, `m` returns, or raises an exception in `E`.
pub record Raises {S D A : Type 0} (E : Error → Type 0) (m : M S D A) : Type 0 where
  pub run : (w : World S D) → Allowed E (m w).0

-- `m` raises nothing.
abbrev pub IsTotal : {S D A : Type 0} → M S D A → Type 0
IsTotal m = Raises (λ _. ⊥) m

pub ok_of_Allowed : {A : Type 0} (r : Result A) → Allowed (λ _. ⊥) r → (a : A) × (r ≡ ok a)
ok_of_Allowed (ok a) h = (a, refl)
ok_of_Allowed (err e) h = absurd h

module _ {S D A : Type 0} {E : Error → Type 0} where
  pub Raises-pure : (a : A) → Raises {S = S} {D = D} E (pure a)
  unfolding pure
  Raises-pure a = record { run = λ w. tt }

  pub Raises-throw : (e : Error) → E e → Raises {S = S} {D = D} E (throw {A = A} e)
  unfolding throw
  Raises-throw e h = record { run = λ w. h }

  pub Raises-lift : (r : Result A) → Allowed E r → Raises {S = S} {D = D} E (lift r)
  unfolding lift
  Raises-lift r h = record { run = λ w. h }

  pub Raises-system : (f : S → A × S) → Raises {D = D} E (system f)
  unfolding system
  Raises-system f = record { run = λ w. tt }

  pub Raises-observe : (f : S → A) → Raises {D = D} E (observe f)
  unfolding observe
  Raises-observe f = record { run = λ w. tt }

  pub Raises-reads : (f : D → A) → Raises {S = S} E (reads f)
  unfolding reads
  Raises-reads f = record { run = λ w. tt }

  pub Raises-if :
      (b : Bool) (m n : M S D A)
      → (b ≡ true → Raises E m)
      → (b ≡ false → Raises E n)
      → Raises E (if b then m else n)
  Raises-if true m n hm hn = hm refl
  Raises-if false m n hm hn = hn refl

  pub Raises-file_lock : (l : Lock) (m : M S D A) → Raises E m → Raises E (file_lock l m)
  unfolding file_lock
  Raises-file_lock l m h = record { run = λ w. h.run _ }

module _ {S D : Type 0} {E : Error → Type 0} where
  pub Raises-emit : (e : Event) → Raises {S = S} {D = D} E (emit e)
  unfolding emit
  Raises-emit e = record { run = λ w. tt }

  pub Raises-writes : (f : D → D) → Raises {S = S} E (writes f)
  unfolding writes
  Raises-writes f = record { run = λ w. tt }

module _ {S D A B : Type 0} {E : Error → Type 0} where
  pub Raises-bind :
      (m : M S D A) (f : A → M S D B) → Raises E m → ((a : A) → Raises E (f a)) → Raises E (m >>= f)
  unfolding ◌>>=◌
  Raises-bind m f hm hf = record { run = λ w. go (m w) (hm.run w) }
    where
      go : (o : Result A × World S D) → Allowed E o.0 → Allowed E (continue o f).0
      go (ok a, w') h = (hf a).run w'
      go (err e, w') h = h

module _ {S D A : Type 0} {E F : Error → Type 0} where
  pub Raises-catch :
      (m : M S D A) (handler : Error → M S D A)
      → Raises E m
      → ((e : Error) → E e → Raises F (handler e))
      → Raises F (catch m handler)
  unfolding catch
  Raises-catch m handler hm hh = record { run = λ w. go (m w) (hm.run w) }
    where
      go : (o : Result A × World S D) → Allowed E o.0 → Allowed F (rescue o handler).0
      go (ok a, w') h = tt
      go (err e, w') h = (hh e h).run w'

module _ {A : Type 0} {E F : Error → Type 0} where
  pub Allowed-weaken : (r : Result A) → ((e : Error) → E e → F e) → Allowed E r → Allowed F r
  Allowed-weaken (ok a) h q = tt
  Allowed-weaken (err e) h q = h e q

  pub Raises-weaken :
      {S D : Type 0} (m : M S D A) → ((e : Error) → E e → F e) → Raises E m → Raises F m
  Raises-weaken m h r = record { run = λ w. Allowed-weaken (m w).0 h (r.run w) }

-- A call whose answer decides whether an exception is raised.
module _ {S D A B : Type 0} {E : Error → Type 0} where
  pub Raises-answered :
      (f : S → A × S) (g : A → Result B)
      → ((s : S) → Allowed E (g (f s).0))
      → Raises {D = D} E (system f >>= λ a. lift (g a))
  unfolding ◌>>=◌ system lift
  Raises-answered f g h = record { run = λ w. h w.os }

  pub Raises-asked :
      {C : Type 0} (f : S → A × S) (g : A → Result B) (next : B → M S D C)
      → ((s : S) → Allowed E (g (f s).0))
      → ((b : B) → Raises E (next b))
      → Raises E (system f >>= λ a. (lift (g a) >>= next))
  unfolding ◌>>=◌ system
  Raises-asked f g next h hn = record {
    run = λ w. (Raises-bind _ _ (Raises-lift (g (f w.os).0) (h w.os)) hn).run _;
  }

pub ruleset raises_rules = (
  Raises-pure, Raises-throw, Raises-lift, Raises-system, Raises-reads, Raises-observe,
  Raises-file_lock, Raises-emit, Raises-writes, Raises-bind,
)
