-- ===== src/Util/SpinLock/Exclusion.antt =====
-- What `SpinLock` (src/util/common.h) guarantees.
use maiter_p.Base.{ℕ, ◌≡◌, ◌≢◌, refl, ◌⊎◌, inl, inr, arith}
use maiter_p.Util.SpinLock.{
  outside, spinning, inside, SpinLock, Step, call, swap, spin, unlock, Reach, here, next, move,
}

-- The lock is free and no thread inside, or held and just one inside.
data Holds (s : SpinLock) : Type 0 where
  nobody : s.d ≡ 0 → ((j : ℕ) → s.spot j ≢ inside) → Holds s
  one : (i : ℕ) → s.d ≡ 1 → s.spot i ≡ inside → ((j : ℕ) → s.spot j ≡ inside → j ≡ i) → Holds s

Step-Holds : {s t : SpinLock} → Step s t → Holds s → Holds t
Step-Holds {s} (call i at_i) (nobody free none) =
    nobody free λ j. let old = none j in ground (arith, old)
Step-Holds {s} (call i at_i) (one k held at_k alone) =
    one k held (ground arith) λ j h. let old = alone j in ground (arith, old)
Step-Holds {s} (swap i at_i free) (nobody free' none) =
    one i refl (ground arith) λ j h. let old = none j in ground (arith, old)
Step-Holds {s} (swap i at_i free) (one k held at_k alone) = absurd (omega arith)
Step-Holds {s} (spin i at_i h) holds = holds
Step-Holds {s} (unlock i at_i) (nobody free none) = absurd (none i at_i)
Step-Holds {s} (unlock i at_i) (one k held at_k alone) =
    nobody refl λ j. let old = alone j in let mine = alone i at_i in ground (arith, old, mine)

Reach-Holds : {s : SpinLock} → Reach s → Holds s
Reach-Holds here = nobody refl λ j. ground arith
Reach-Holds (next reach step) = Step-Holds step (Reach-Holds reach)

module _ {s : SpinLock} (reach : Reach s) where
  -- In every state that threads reach, in any interleaving, in which each unlocks only what it has
  -- locked: two threads between lock and unlock of a spin lock are one and the same, and then d is 1.
  pub Reach-exclusive : (i j : ℕ) → s.spot i ≡ inside → s.spot j ≡ inside → (i ≡ j) × (s.d ≡ 1)
  Reach-exclusive i j h h' = elim (Reach-Holds reach) [
    | nobody free none ↦ absurd (none i h)
    | one k held at_k alone ↦
        (let e = alone i h in let e' = alone j h' in omega (arith, e, e'), held)
  ]

  -- A thread in the loop of `lock` can be inside after one step, or after two.
  pub Reach-CanEnter :
      (i : ℕ)
      → s.spot i ≡ spinning
      → ((t : SpinLock) × Step s t × (t.spot i ≡ inside))
        ⊎ ((t : SpinLock) × (u : SpinLock) × Step s t × Step t u × (u.spot i ≡ inside))
  Reach-CanEnter i waits = elim (Reach-Holds reach) [
    | nobody free none ↦
        inl (record { d = 1; spot = move s.spot i inside }, swap i waits free, ground arith)
    | one k held at_k alone ↦
        let left : SpinLock = record { d = 0; spot = move s.spot k outside } in
        inr (
          left,
          record { d = 1; spot = move left.spot i inside },
          unlock k at_k,
          swap i (ground arith) refl,
          ground arith,
        )
  ]
