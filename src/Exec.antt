-- ===== src/Exec.antt =====
-- How the program's methods run: a state that holds the operating system, the disk, the file locks
-- that this process holds and the effects so far (the newest first), and exceptions.
-- What was written before an exception stays written.
pub mod Keeps
pub mod Locks
pub mod Raises
pub mod Ends
pub mod Ensures
use blendersessiond.Base.{ℕ, ℤ, String, Bool, true, false, Option, none, some, List, [], ◌∷◌}
use blendersessiond.Base.{str_eq, if◌then◌else◌}

-- The `reason` of a `WireError` class.
pub data Reason : Type 0 where
  wire_failure connection_failed timeout protocol_error addon_error : Reason

-- The exception classes that the program raises or tells apart. `UnicodeDecodeError` and
-- `JSONDecodeError` are subclasses of `ValueError`; `SessionError`, `WireError`,
-- `SetupOwnerError` and `RecursionError` of `RuntimeError`; `TimeoutError` of `OSError`.
pub data Error : Type 0 where
  os_error value_error type_error runtime_error assertion_error : String → Error
  session_error already_running setup_error attempt_conflict : String → Error
  timeout_error subprocess_error : String → Error
  wire_error : Reason → String → Error

pub data Lock : Type 0 where
  name_lock wire_lock setup_lock : String → Lock
  ports_lock : Lock

pub data Signal : Type 0 where
  sigterm sigkill : Signal

-- What the outside world sees of a run.
pub data Event : Type 0 where
  acquired : Lock → List Lock → Event
  signalled : Signal → ℤ → Event
  taskkilled : Bool → ℤ → Event
  spawned : ℤ → Event
  requested : ℕ → String → Event

pub record World (S D : Type 0) : Type 0 where
  pub os : S
  pub disk : D
  pub held : List Lock
  pub events : List Event

pub data Result (A : Type 0) : Type 0 where
  ok : A → Result A
  err : Error → Result A

abbrev pub M : Type 0 → Type 0 → Type 0 → Type 0
M S D A = World S D → Result A × World S D

-- `str(error)`
abbrev pub message : Error → String
message (os_error m) = m
message (value_error m) = m
message (type_error m) = m
message (runtime_error m) = m
message (assertion_error m) = m
message (session_error m) = m
message (already_running m) = m
message (setup_error m) = m
message (attempt_conflict m) = m
message (timeout_error m) = m
message (subprocess_error m) = m
message (wire_error _ m) = m

abbrev pub lock_eq : Lock → Lock → Bool
lock_eq (name_lock a) (name_lock b) = str_eq a b
lock_eq (wire_lock a) (wire_lock b) = str_eq a b
lock_eq (setup_lock a) (setup_lock b) = str_eq a b
lock_eq ports_lock ports_lock = true
lock_eq _ _ = false

-- The lock list without one occurrence of a lock.
unfoldable pub without : Lock → List Lock → List Lock
without l [] = []
without l (k ∷ ks) = if lock_eq l k then ks else k ∷ without l ks

module _ {S D A : Type 0} where
  unfoldable pub pure : A → M S D A
  pure a w = (ok a, w)

  unfoldable pub throw : Error → M S D A
  throw e w = (err e, w)

  -- A pure function that may raise.
  unfoldable pub lift : Result A → M S D A
  lift r w = (r, w)

  unfoldable pub or_raise : Option A → Error → M S D A
  unfolding pure throw
  or_raise none e = throw e
  or_raise (some a) e = pure a

  -- A call of the operating system: it gives an answer, and the system may change meanwhile.
  unfoldable pub system : (S → A × S) → M S D A
  system f w = let (a, s) = f w.os in (ok a, record w { os = s })

  -- A look at the operating system that does not change it.
  unfoldable pub observe : (S → A) → M S D A
  observe f w = (ok (f w.os), w)

  -- A read of the disk.
  unfoldable pub reads : (D → A) → M S D A
  reads f w = (ok (f w.disk), w)

  abbrev pub rescue : Result A × World S D → (Error → M S D A) → Result A × World S D
  rescue (ok a, w) handler = (ok a, w)
  rescue (err e, w) handler = handler e w

  -- `try: m except e: handler e`; a handler that does not catch `e` raises it again
  unfoldable pub catch : M S D A → (Error → M S D A) → M S D A
  catch m handler w = rescue (m w) handler

module _ {S D : Type 0} where
  unfoldable pub writes : (D → D) → M S D Unit
  writes f w = (ok tt, record w { disk = f w.disk })

  unfoldable pub emit : Event → M S D Unit
  emit e w = (ok tt, record w { events = e ∷ w.events })

module _ {S D A B : Type 0} where
  abbrev pub continue : Result A × World S D → (A → M S D B) → Result B × World S D
  continue (ok a, w) f = f a w
  continue (err e, w) f = (err e, w)

  infixl 5 ◌>>=◌ ◌>>◌
  unfoldable pub ◌>>=◌ : M S D A → (A → M S D B) → M S D B
  ◌>>=◌ m f w = continue (m w) f

  abbrev pub ◌>>◌ : M S D A → M S D B → M S D B
  m >> n = m >>= λ _. n

module _ {S D A : Type 0} where
  -- `try: m finally: cleanup`, for a cleanup that does not raise
  unfoldable pub finally : M S D A → (World S D → World S D) → M S D A
  finally m cleanup w = let (r, w') = m w in (r, cleanup w')

  -- locking.py: `with file_lock(path): body`. The lock is released however the body ends.
  unfoldable pub file_lock : Lock → M S D A → M S D A
  unfolding finally
  file_lock l body w =
      finally body (λ w'. record w' { held = without l w'.held })
        (record w { held = l ∷ w.held; events = acquired l w.held ∷ w.events })
