-- ===== src/Discovery/Newest.antt =====
-- The choice among probed executables in src/blendersessiond/discovery.py: the newest wins.
use blendersessiond.Base.{
  ℕ, arith, ◌≡◌, ◌<◌, ◌≤◌, ◌⊎◌, refl, String, true, false, some, List, [], ◌∷◌, All, if◌then◌else◌,
  Bool-cases, inl, inr,
}
use mathlib.Core.List.{Mem, Memᴰ}
use blendersessiond.Discovery.Version.{key_lt}
use blendersessiond.Discovery.Select.{
  BlenderDiscovery, passed, ProbedCandidate, not_discovered, newest, selected_from, Probes,
  in_order, choose, choose_probed,
}

abbrev Key : Type 0
Key = ℕ × ℕ × ℕ

-- `y` is not older than `x`.
abbrev pub NotOlder : Key → Key → Type 0
NotOlder y x = key_lt y x ≡ false

NotOlder-refl : (x : Key) → NotOlder x x
unfolding key_lt
NotOlder-refl (a, b, c) = ground arith

NotOlder-trans : (x y z : Key) → NotOlder z y → NotOlder y x → NotOlder z x
unfolding key_lt
NotOlder-trans (a, b, c) (p, q, r) (x, y, z) h g = ground arith

NotOlder-of_lt : (x y : Key) → key_lt x y ≡ true → NotOlder y x
unfolding key_lt
NotOlder-of_lt (a, b, c) (p, q, r) h = ground arith

keep_newer : ProbedCandidate → ProbedCandidate → ProbedCandidate
keep_newer best c = if key_lt best.version_key c.version_key then c else best

-- Of two, the kept one is not older than either.
keep_newer-NotOlder :
    (best c : ProbedCandidate)
    → (NotOlder (keep_newer best c).version_key best.version_key)
      × NotOlder (keep_newer best c).version_key c.version_key
unfolding keep_newer
keep_newer-NotOlder best c = elim (Bool-cases (key_lt best.version_key c.version_key)) [
  | inl lt ↦ rw lt (NotOlder-of_lt best.version_key c.version_key lt, NotOlder-refl c.version_key)
  | inr ge ↦ rw ge (NotOlder-refl best.version_key, ge)
]

-- No candidate is newer than the one that is chosen.
newest-NotOlder :
    (best : ProbedCandidate) (cs : List ProbedCandidate)
    → All (λ c. NotOlder (newest best cs).version_key c.version_key) (best ∷ cs)
unfolding newest keep_newer
newest-NotOlder best [] = (NotOlder-refl best.version_key, tt)
newest-NotOlder best (c ∷ cs) =
    let later = newest-NotOlder (keep_newer best c) cs in
    let kept = keep_newer-NotOlder best c in
    (NotOlder-trans _ _ _ later.0 kept.0, (NotOlder-trans _ _ _ later.0 kept.1, later.1))

kept-Memᴰ :
    (best c chosen : ProbedCandidate) (cs : List ProbedCandidate)
    → Memᴰ chosen (best ∷ cs)
    → Memᴰ chosen (best ∷ c ∷ cs)
kept-Memᴰ best c chosen cs (Memᴰ.head e) = Memᴰ.head e
kept-Memᴰ best c chosen cs (Memᴰ.tail m) = Memᴰ.tail (Memᴰ.tail m)

newest-Memᴰ :
    (best : ProbedCandidate) (cs : List ProbedCandidate) → Memᴰ (newest best cs) (best ∷ cs)
unfolding newest
newest-Memᴰ best [] = Memᴰ.head refl
newest-Memᴰ best (c ∷ cs) = elim (Bool-cases (key_lt best.version_key c.version_key)) [
  | inl lt ↦ rw lt (Memᴰ.tail (newest-Memᴰ c cs))
  | inr ge ↦ rw ge (kept-Memᴰ best c (newest best cs) cs (newest-Memᴰ best cs))
]

-- Python compares tuples by the first entry in which they differ.
abbrev pub KeyAtMost : Key → Key → Type 0
KeyAtMost (a, b, c) (x, y, z) = (a < x) ⊎ ((a ≡ x) × ((b < y) ⊎ ((b ≡ y) × (c ≤ z))))

NotOlder-KeyAtMost : (x y : Key) → NotOlder y x → KeyAtMost x y
unfolding key_lt
NotOlder-KeyAtMost (a, b, c) (x, y, z) h = grind arith

at_most_each :
    (key : Key) (cs : List ProbedCandidate)
    → All (λ c. NotOlder key c.version_key) cs
    → All (λ c. KeyAtMost c.version_key key) cs
at_most_each key [] h = tt
at_most_each key (c ∷ cs) (h, hs) = (NotOlder-KeyAtMost c.version_key key h, at_most_each key cs hs)

-- The candidates that were gathered in front are the ones in the order of the probes.
in_order-Memᴰ :
    (x : ProbedCandidate) (cs out : List ProbedCandidate)
    → Memᴰ x (in_order cs out)
    → Memᴰ x cs ⊎ Memᴰ x out
unfolding in_order
in_order-Memᴰ x [] out m = inr m
in_order-Memᴰ x (c ∷ cs) out m = elim (in_order-Memᴰ x cs (c ∷ out) m) [
  | inl later ↦ inl (Memᴰ.tail later)
  | inr (Memᴰ.head e) ↦ inl (Memᴰ.head e)
  | inr (Memᴰ.tail before) ↦ inr before
]

in_order-All :
    (P : ProbedCandidate → Type 0) (cs out : List ProbedCandidate)
    → All P (in_order cs out)
    → All P cs × All P out
unfolding in_order
in_order-All P [] out h = (tt, h)
in_order-All P (c ∷ cs) out h =
    let both = in_order-All P cs (c ∷ out) h in ((both.1.0, both.0), both.1.1)

-- The discovery names a candidate that was probed, and none that was probed has a greater key.
pub record IsNewest (probed : List ProbedCandidate) (d : BlenderDiscovery) : Type 0 where
  pub candidate : ProbedCandidate
  pub member : Mem candidate probed
  pub at_path : d.path ≡ some candidate.path
  pub of_version : d.version ≡ some candidate.version
  pub greatest : All (λ c. KeyAtMost c.version_key candidate.version_key) probed

module _ (source description : String) where
  choose-IsNewest :
      (p : Probes) (cs : List ProbedCandidate)
      → ((x : ProbedCandidate) → Memᴰ x cs → Memᴰ x p.probed)
      → ((P : ProbedCandidate → Type 0) → All P cs → All P p.probed)
      → passed (choose source description p.failures cs) ≡ true
      → IsNewest p.probed (choose source description p.failures cs)
  unfolding choose selected_from passed not_discovered
  choose-IsNewest p [] inside every chosen = cc
  choose-IsNewest p (c ∷ cs) inside every chosen = record {
    candidate = newest c cs;
    member = ∣ inside (newest c cs) (newest-Memᴰ c cs) ∣₁;
    at_path = refl;
    of_version = refl;
    greatest = every _ (at_most_each (newest c cs).version_key (c ∷ cs) (newest-NotOlder c cs));
  }

  -- When the choice among the probed candidates passes, it names the path and the version of one of
  -- them, and none of them has a greater version, by major, then minor, then patch number.
  pub choose_probed-IsNewest :
      (p : Probes)
      → passed (choose_probed source description p) ≡ true
      → IsNewest p.probed (choose_probed source description p)
  unfolding choose_probed
  choose_probed-IsNewest p chosen =
      choose-IsNewest p (in_order p.probed []) inside (λ P h. (in_order-All P p.probed [] h).0)
        chosen
    where
      inside : (x : ProbedCandidate) → Memᴰ x (in_order p.probed []) → Memᴰ x p.probed
      inside x m = elim (in_order-Memᴰ x p.probed [] m) [
        | inl here ↦ here
        | inr none_there ↦ elim none_there [ ]
      ]
