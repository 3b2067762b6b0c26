-- ===== src/Processes/Poll.antt =====
-- The waits of src/blendersessiond: `while time.monotonic() < deadline` with a sleep at the end of
-- each round. Each takes as much fuel as it can make rounds.
use blendersessiond.Base.{ℕ, zero, suc, ◌+◌, ◌/◌, Option, none, some, ltb, if◌then◌else◌}
use blendersessiond.Exec.{M, pure, system, observe, ◌>>=◌, ◌>>◌}
use blendersessiond.Processes.Kernel.{Kernel}

module _ {S D A : Type 0} (k : Kernel S) (pause : ℕ) where
  -- A round that gives a result ends the wait.
  unfoldable pub after_round : M S D (Option A) → Option A → M S D (Option A)
  after_round again (some a) = pure (some a)
  after_round again none = do system (k.sleep pause); again

  unfoldable pub poll : ℕ → ℕ → M S D (Option A) → M S D (Option A)
  poll zero deadline body = pure none
  poll (suc fuel) deadline body = do
    t ← observe k.now
    if ltb t deadline
        then (do result ← body; after_round (poll fuel deadline body) result)
        else pure none

  -- A wait for so many milliseconds.
  unfoldable pub poll_for : ℕ → M S D (Option A) → M S D (Option A)
  poll_for wait body = do t ← observe k.now; poll (suc (wait / pause)) (t + wait) body
