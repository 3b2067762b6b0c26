-- ===== src/Sessions/Quiet.antt =====
-- `inspect_session` of src/blendersessiond/sessions.py only looks.
use blendersessiond.Base.{◌≡◌, refl, String, All}
use blendersessiond.Exec.{
  World, M, name_lock, wire_lock, requested, file_lock, Event, acquired, signalled, taskkilled,
  spawned,
}
use blendersessiond.Exec.Keeps.{Keeps, keeps_rules}
use blendersessiond.Sessions.Disk.{Store}
use blendersessiond.Sessions.Inspection.{SessionInspection}
use blendersessiond.Sessions.Inspect.{Outside, inspect_unlocked}
use blendersessiond.Sessions.Lifecycle.{inspect_session}
use blendersessiond.Sessions.Watch.{inspect_unlocked-keeps}

-- Nothing is started, signalled or killed; the addon is asked for its health and its dirty flag.
abbrev pub IsLook : Event → Type 0
IsLook (acquired _ _) = Unit
IsLook (requested _ _) = Unit
IsLook (signalled _ _) = ⊥
IsLook (taskkilled _ _) = ⊥
IsLook (spawned _) = ⊥

-- The records are these, and all that happened was looks.
abbrev pub OnlyLooked : {S : Type 0} → Store → World S Store → Type 0
OnlyLooked disk w = (w.disk ≡ disk) × All IsLook w.events

module _ {S : Type 0} (disk : Store) (o : Outside S) where
  file_lock-looked :
      (lock : blendersessiond.Exec.Lock) (body : M S Store SessionInspection)
      → Keeps (OnlyLooked disk) body
      → Keeps (OnlyLooked disk) (file_lock lock body)
  unfolding file_lock
  file_lock-looked lock body h = record { run = λ w looked. h.run _ (looked.0, (tt, looked.1)) }

  inspect_unlocked-looked : (name : String) → Keeps (OnlyLooked disk) (inspect_unlocked o name)
  inspect_unlocked-looked =
      inspect_unlocked-keeps (OnlyLooked disk) (λ _. OnlyLooked disk) (λ w s h. h) (λ _ w s h. h)
        (λ _ port command w h. (h.0, (tt, h.1)))
        (λ component. file_lock-looked (wire_lock component)) o

  inspect_session-Keeps : (name : String) → Keeps (OnlyLooked disk) (inspect_session o name)
  unfolding inspect_session
  inspect_session-Keeps name =
      search (keeps_rules, file_lock-looked, inspect_unlocked-looked) depth 9

module _ {S : Type 0} (o : Outside S) (name : String) (w : World S Store) where
  -- Whatever the outside answers, an inspection leaves the records as they are, and if nothing but
  -- looks happened before, then nothing but looks has happened after it.
  pub inspect_session-OnlyLooked :
      All IsLook w.events → OnlyLooked w.disk (inspect_session o name w).1
  inspect_session-OnlyLooked looks = (inspect_session-Keeps w.disk o name).run w (refl, looks)
