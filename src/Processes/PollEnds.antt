-- ===== src/Processes/PollEnds.antt =====
-- What the waits of Processes/Poll.antt return is what a round returned.
use blendersessiond.Base.{ℕ, zero, suc, Option, none, some}
use blendersessiond.Exec.{World, M, pure, system, ◌>>=◌}
use blendersessiond.Exec.Ends.{Ended, Ends, Ends-pure, Ends-if, Ends-bind, Ends-then}
use blendersessiond.Processes.Kernel.{Kernel}
use blendersessiond.Processes.Poll.{poll, after_round, poll_for}

-- An answer satisfies `Q`.
abbrev pub WhenSome : {A : Type 0} → (A → Type 0) → Option A → Type 0
WhenSome Q none = Unit
WhenSome Q (some a) = Q a

module _ {S D A : Type 0} (k : Kernel S) (pause : ℕ) (Q : A → Type 0) (body : M S D (Option A))
    (body-Ends : Ends (λ o _. WhenSome Q o) body) where
  after_round-Ends :
      (again : M S D (Option A)) (o : Option A) (w : World S D)
      → WhenSome Q o
      → Ends (λ a _. WhenSome Q a) again
      → Ended (λ a _. WhenSome Q a) (after_round k pause again o w)
  unfolding after_round pure ◌>>=◌ system
  after_round-Ends again (some a) w q h = q
  after_round-Ends again none w q h = h.run _

  poll-Ends : (fuel deadline : ℕ) → Ends (λ o _. WhenSome Q o) (poll k pause fuel deadline body)
  unfolding poll
  poll-Ends zero deadline = Ends-pure none (λ w. tt)
  poll-Ends (suc fuel) deadline =
      let again = poll-Ends fuel deadline in
      Ends-bind _ _ λ t.
        Ends-if _ _ _ (Ends-then _ _ body-Ends (λ o w q. after_round-Ends _ o w q again))
          (Ends-pure none (λ w. tt))

  pub poll_for-Ends : (wait : ℕ) → Ends (λ o _. WhenSome Q o) (poll_for k pause wait body)
  unfolding poll_for
  poll_for-Ends wait = Ends-bind _ _ λ t. poll-Ends _ _
