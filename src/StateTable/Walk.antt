-- ===== src/StateTable/Walk.antt =====
-- What a walk over the buckets of src/kernel/statetable.h finds, and how a write changes it.
use maiter_p.Base.{
  ℕ, zero, suc, ◌+◌, ◌%◌, ◌<◌, ◌≡◌, refl, ◌≢◌, true, false, arith, ◌==◌, if◌then◌else◌,
}
use maiter_p.Kernel.{Key}
use maiter_p.StateTable.Defs.{Bucket}
use maiter_p.StateTable.Probe.{hit, gap, full, walk}

module _ {ℓ} {K V D : Type ℓ} ⦃key : Key K⦄ (n : ℕ) where
  -- The buckets `s` and `s'` differ in nothing that a search reads.
  abbrev pub SameKeys : (ℕ → Bucket K V D) → (ℕ → Bucket K V D) → Type ℓ
  SameKeys s s' = (j : ℕ) → ((s j).in_use ≡ (s' j).in_use) × ((s j).k ≡ (s' j).k)

  pub walk_congr :
      (s s' : ℕ → Bucket K V D) (k : K)
      → SameKeys s s'
      → (f b : ℕ) → walk f s k n b ≡ walk f s' k n b
  unfolding walk
  walk_congr s s' k same zero b = refl
  walk_congr s s' k same (suc f) b =
      ground (arith, (same b).0, (same b).1, walk_congr s s' k same f ((b + 1) % n))

  pub walk_here :
      (s : ℕ → Bucket K V D) (k : K) (f b : ℕ)
      → (s b).in_use ≡ true
      → (s b).k ≡ k
      → walk (suc f) s k n b ≡ hit b
  unfolding walk
  walk_here s k f b in_use e = ground (arith, key.beq_iff (s b).k k)

  module _ (s : ℕ → Bucket K V D) (k : K) (pos : 0 < n) where
    pub walk-hit :
        (f b c : ℕ)
        → b < n
        → walk f s k n b ≡ hit c
        → (c < n) × ((s c).in_use ≡ true) × ((s c).k ≡ k)
    unfolding walk
    walk-hit zero b c h e = cc
    walk-hit (suc f) b c h e =
        ground (arith, walk-hit f ((b + 1) % n) c (omega arith), key.beq_iff (s b).k k)

    pub walk-gap : (f b c : ℕ) → b < n → walk f s k n b ≡ gap c → (c < n) × ((s c).in_use ≡ false)
    unfolding walk
    walk-gap zero b c h e = cc
    walk-gap (suc f) b c h e = ground (arith, walk-gap f ((b + 1) % n) c (omega arith))

    -- A walk that finds nothing saw only used buckets with other keys.
    pub walk-full :
        (f b : ℕ) → walk f s k n b ≡ full → 0 < f → ((s b).in_use ≡ true) × ((s b).k ≢ k)
    unfolding walk
    walk-full zero b e h = elim h [ ]
    walk-full (suc f) b e h = ground (arith, key.beq_iff (s b).k k)

    pub walk-full_next : (f b : ℕ) → walk (suc f) s k n b ≡ full → walk f s k n ((b + 1) % n) ≡ full
    unfolding walk
    walk-full_next f b e = ground (arith)

  -- A bucket `c` that was not in use is filled with a row of key `k`.
  module _ (s : ℕ → Bucket K V D) (c : ℕ) (u : Bucket K V D) (free : (s c).in_use ≡ false)
      (used : u.in_use ≡ true) where
    abbrev pub filled : ℕ → Bucket K V D
    filled j = if c == j then u else s j

    pub walk-fill_self : (f b : ℕ) → walk f s u.k n b ≡ gap c → walk f filled u.k n b ≡ hit c
    unfolding walk
    walk-fill_self zero b e = cc
    walk-fill_self (suc f) b e = ground (arith, walk-fill_self f ((b + 1) % n), key.beq_iff u.k u.k)

    pub walk-fill_other : (q : K) (f b i : ℕ) → walk f s q n b ≡ hit i → walk f filled q n b ≡ hit i
    unfolding walk
    walk-fill_other q zero b i e = cc
    walk-fill_other q (suc f) b i e = ground (arith, walk-fill_other q f ((b + 1) % n) i)

  -- A bucket `c` in use changes its key; searches for neither key notice.
  pub walk_rekeyed :
      (s : ℕ → Bucket K V D) (c : ℕ) (u : Bucket K V D) (q : K)
      → (s c).in_use ≡ true
      → u.in_use ≡ true
      → q ≢ (s c).k
      → q ≢ u.k
      → (f b : ℕ) → walk f (λ j. if c == j then u else s j) q n b ≡ walk f s q n b
  unfolding walk
  walk_rekeyed s c u q old new ne ne' zero b = refl
  walk_rekeyed s c u q old new ne ne' (suc f) b = ground (
    arith,
    walk_rekeyed s c u q old new ne ne' f ((b + 1) % n),
    key.beq_iff u.k q,
    key.beq_iff (s c).k q,
  )
