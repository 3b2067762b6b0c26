-- ===== src/Exec/Locks.antt =====
-- The lock discipline: each run gives back the locks that it takes, and takes a lock only while it
-- holds locks of a lower rank, so that two runs never wait for one another.
use blendersessiond.Base.{ℕ, ◌<◌, ◌≡◌, refl, ap, ◌∙◌, List, ◌∷◌, All, true}
use text.Mathlib.TextPositions.{eq_refl}
use blendersessiond.Exec.{
  World, M, Lock, name_lock, wire_lock, setup_lock, ports_lock, lock_eq, without, Event, acquired,
  signalled, taskkilled, spawned, requested, file_lock,
}
use blendersessiond.Exec.Keeps.{Keeps}

-- The order in which the program nests its locks.
unfoldable pub rank : Lock → ℕ
rank (name_lock _) = 0
rank (setup_lock _) = 0
rank ports_lock = 1
rank (wire_lock _) = 2

-- A lock is taken only above the locks that are held then.
abbrev pub Ordered : Event → Type 0
Ordered (acquired l held) = All (λ k. rank k < rank l) held
Ordered (signalled _ _) = Unit
Ordered (taskkilled _ _) = Unit
Ordered (spawned _) = Unit
Ordered (requested _ _) = Unit

-- These locks are held, and every lock so far was taken in order.
pub record Disciplined {S D : Type 0} (locks : List Lock) (w : World S D) : Type 0 where
  pub holds : w.held ≡ locks
  pub ordered : All Ordered w.events

pub Disciplined-os :
    {S D : Type 0} {locks : List Lock} (w : World S D) (s : S)
    → Disciplined locks w
    → Disciplined locks (record w { os = s })
Disciplined-os w s h = record { holds = h.holds; ordered = h.ordered }

pub Disciplined-disk :
    {S D : Type 0} {locks : List Lock} (f : D → D) (w : World S D)
    → Disciplined locks w
    → Disciplined locks (record w { disk = f w.disk })
Disciplined-disk f w h = record { holds = h.holds; ordered = h.ordered }

lock_eq_refl : (l : Lock) → lock_eq l l ≡ true
lock_eq_refl (name_lock s) = eq_refl s
lock_eq_refl (wire_lock s) = eq_refl s
lock_eq_refl (setup_lock s) = eq_refl s
lock_eq_refl ports_lock = refl

pub without-cons : (l : Lock) (ks : List Lock) → without l (l ∷ ks) ≡ ks
unfolding without
without-cons l ks = rw (lock_eq_refl l)

-- A disciplined body under a lock of a higher rank is disciplined, and the lock is given back.
pub file_lock-Disciplined :
    {S D A : Type 0} {locks : List Lock} (l : Lock) (body : M S D A)
    → All (λ k. rank k < rank l) locks
    → Keeps (Disciplined (l ∷ locks)) body
    → Keeps (Disciplined locks) (file_lock l body)
unfolding file_lock
file_lock-Disciplined {locks = locks} l body above inside = record {
  run = λ w h.
      let entered =
        inside.run (record w { held = l ∷ w.held; events = acquired l w.held ∷ w.events })
          (record {
            holds = ap (λ ks. l ∷ ks) h.holds;
            ordered = (rw (h.holds) above, h.ordered);
          }) in
      record {
        holds = ap (without l) entered.holds ∙ without-cons l locks;
        ordered = entered.ordered;
      };
}
