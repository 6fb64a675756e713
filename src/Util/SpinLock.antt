-- ===== src/Util/SpinLock.antt =====
-- `SpinLock` of src/util/common.h and src/util/common.cc, used by threads in any interleaving. A step is
-- one atomic instruction on `d`; a compare-and-swap that fails changes nothing.
use maiter_p.Base.{ℕ, ◌≡◌, ◌≢◌, ◌==◌, if◌then◌else◌}
pub mod Exclusion

-- Where a thread is: with no business here, in the loop of `lock`, or between `lock` and `unlock`.
pub data Spot : Type 0 where
  outside spinning inside : Spot

pub record SpinLock : Type 0 where
  pub d : ℕ
  pub spot : ℕ → Spot

-- The constructor.
abbrev pub spin_lock : SpinLock
spin_lock = record { d = 0; spot = λ i. outside }

-- Thread `i` goes to a spot.
abbrev pub move : (ℕ → Spot) → ℕ → Spot → ℕ → Spot
move spot i p j = if j == i then p else spot j

pub data Step (s : SpinLock) : SpinLock → Type 0 where
  -- It calls `lock`.
  call : (i : ℕ) → s.spot i ≡ outside → Step s (record s { spot = move s.spot i spinning })
  -- The compare-and-swap of 0 by 1 in the loop of `lock`.
  swap :
      (i : ℕ)
      → s.spot i ≡ spinning
      → s.d ≡ 0
      → Step s (record { d = 1; spot = move s.spot i inside })
  spin : (i : ℕ) → s.spot i ≡ spinning → s.d ≢ 0 → Step s s
  -- `unlock`, by a thread that holds the lock.
  unlock : (i : ℕ) → s.spot i ≡ inside → Step s (record { d = 0; spot = move s.spot i outside })

pub data Reach : SpinLock → Type 0 where
  here : Reach spin_lock
  next : {s t : SpinLock} → Reach s → Step s t → Reach t
