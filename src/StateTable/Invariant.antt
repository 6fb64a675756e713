-- ===== src/StateTable/Invariant.antt =====
-- The invariant of the table of src/kernel/statetable.h and its view as a map from keys to rows.

use maiter_p.Base.{
  ℕ, suc, ◌<◌, ◌≡◌, refl, sym, ◌∙◌, true, false, Option, none, some, List, [], ◌∷◌, ok, arith, ◌==◌,
  if◌then◌else◌, set, length-set, get_or-set, Bool-cases, inl, inr, ==_iff,
}
use maiter_p.Kernel.{Key, Value, IterateKernel}
use maiter_p.StateTable.Defs.{StateTable, Bucket, modify}
use maiter_p.StateTable.Put.{blank}
use maiter_p.StateTable.Probe.{Found, hit, gap, full, Fits, slot, home, home-lt, probe, at-get_or}
use maiter_p.StateTable.Walk.{
  SameKeys, filled, walk_congr, walk-hit, walk-gap, walk-fill_self, walk-fill_other,
}

-- The delta, the value and the adjacency data of a key.
abbrev pub Row {ℓ} : Type ℓ → Type ℓ → Type ℓ
Row V D = V × V × D

module _ {ℓ} {K V D : Type ℓ} where
  abbrev pub row : Bucket K V D → Row V D
  row u = (u.v1, u.v2, u.v3)

  -- The number of buckets in use.
  unfoldable pub used : List (Bucket K V D) → ℕ
  used [] = 0
  used (u ∷ us) = if u.in_use then suc (used us) else used us

  -- A table whose bucket `b` was overwritten, and whose counters were set.
  abbrev pub rewritten : StateTable K V D → ℕ → Bucket K V D → ℕ → ℕ → StateTable K V D
  rewritten t b u e n = record t { buckets = set t.buckets b u; entries = e; total_updates = n }

module _ {ℓ} {K V D : Type ℓ} ⦃key : Key K⦄ ⦃value : Value V⦄ ⦃kernel : IterateKernel K V D⦄ where
  -- A search for the key of a bucket in use ends at that bucket.
  abbrev pub IsProbed : StateTable K V D → Type 0
  IsProbed t = (i : ℕ) → i < t.size → (slot t i).in_use ≡ true → probe t (slot t i).k ≡ hit i

  pub record WellFormed (t : StateTable K V D) : Type 0 where
    pub fits : Fits t
    pub probed : IsProbed t

  abbrev pub row_at : StateTable K V D → Found → Option (Row V D)
  row_at t (hit i) = some (row (slot t i))
  row_at t (gap i) = none
  row_at t full = none

  -- The abstract map.
  unfoldable pub view : StateTable K V D → K → Option (Row V D)
  view t q = row_at t (probe t q)

  module _ {t : StateTable K V D} (fits : Fits t) where
    pub probe-hit :
        (q : K) (i : ℕ)
        → probe t q ≡ hit i
        → (i < t.size) × ((slot t i).in_use ≡ true) × ((slot t i).k ≡ q)
    unfolding probe
    probe-hit q i e =
        walk-hit t.size (slot t) q fits.nonempty t.size (home t q) i (home-lt fits q) e

    pub probe-gap : (q : K) (i : ℕ) → probe t q ≡ gap i → (i < t.size) × ((slot t i).in_use ≡ false)
    unfolding probe
    probe-gap q i e =
        walk-gap t.size (slot t) q fits.nonempty t.size (home t q) i (home-lt fits q) e

    pub slot-rewritten :
        (b : ℕ) (u : Bucket K V D) (e n : ℕ) (j : ℕ)
        → b < t.size
        → slot (rewritten t b u e n) j ≡ (if b == j then u else slot t j)
    slot-rewritten b u e n j h = get_or-set t.buckets b j u blank (rw fits.width h)

    pub Fits-rewritten : (b : ℕ) (u : Bucket K V D) (e n : ℕ) → Fits (rewritten t b u e n)
    Fits-rewritten b u e n = record {
      width = length-set t.buckets b u ∙ fits.width;
      nonempty = fits.nonempty;
      small = fits.small;
    }

    pub modify-rewritten :
        (b : ℕ) (f : Bucket K V D → Bucket K V D)
        → b < t.size
        → modify t b f ≡ ok (rewritten t b (f (slot t b)) t.entries t.total_updates)
    unfolding modify
    modify-rewritten b f h = rw (at-get_or t.buckets b blank (rw fits.width h))

  module _ {t : StateTable K V D} (wf : WellFormed t) where
    open wf use {fits, probed}

    -- A key is found at every bucket in use that holds it, and nowhere else.
    pub probe-hit_iff :
        (q : K) (i : ℕ)
        → i < t.size
        → (slot t i).in_use ≡ true
        → (slot t i).k ≡ q
        → probe t q ≡ hit i
    probe-hit_iff q i h used e = rw (← e) (probed i h used)

    -- The bucket `b`, which a search for `k` ends at, is overwritten by a row of the same key.
    module _ (k : K) (b : ℕ) (here : probe t k ≡ hit b) (u : Bucket K V D) (e n : ℕ)
        (used : u.in_use ≡ true) (same : u.k ≡ k) where
      at_b : (b < t.size) × ((slot t b).in_use ≡ true) × ((slot t b).k ≡ k)
      at_b = probe-hit fits k b here

      pub probe-touched : (q : K) → probe (rewritten t b u e n) q ≡ probe t q
      unfolding probe
      probe-touched q =
          walk_congr t.size (slot (rewritten t b u e n)) (slot t) q
            (λ j. rw (slot-rewritten fits b u e n j at_b.0) (ground (arith, at_b, ==_iff b j)))
            t.size (home t q)

      pub touched-WellFormed : WellFormed (rewritten t b u e n)
      touched-WellFormed = record {
        fits = Fits-rewritten fits b u e n;
        probed = λ i h.
            rw (slot-rewritten fits b u e n i at_b.0, probe-touched)
              (ground (arith, same, here, probed i h, ==_iff b i));
      }

      row_at-touched :
          (q : K) (p : Found)
          → key.beq q k ≡ false
          → probe t q ≡ p
          → row_at (rewritten t b u e n) p ≡ row_at t p
      row_at-touched q (gap i) differ e = refl
      row_at-touched q full differ e = refl
      row_at-touched q (hit i) differ found =
          let other : (b == i) ≡ false =
            ground (arith, at_b, probe-hit fits q i, key.beq_iff q k, ==_iff b i) in
          rw (slot-rewritten fits b u e n i at_b.0, other)

      pub view-touched :
          (q : K) → view (rewritten t b u e n) q ≡ (if key.beq q k then some (row u) else view t q)
      unfolding view
      view-touched q = elim (Bool-cases (key.beq q k)) [
        | inl eq ↦
            rw (probe-touched q, (key.beq_iff q k).0 eq, here, slot-rewritten fits b u e n b at_b.0)
              (ground (arith, ==_iff b b, key.beq_iff k k))
        | inr differ ↦ rw (differ, probe-touched q) (row_at-touched q _ differ refl)
      ]

    -- The bucket `b`, which is not in use and at which a search for the key of `u` ends, is filled.
    module _ (u : Bucket K V D) (b : ℕ) (here : probe t u.k ≡ gap b) (e n : ℕ)
        (used : u.in_use ≡ true) where
      at_gap : (b < t.size) × ((slot t b).in_use ≡ false)
      at_gap = probe-gap fits u.k b here

      slots-filled :
          SameKeys t.size (slot (rewritten t b u e n)) (filled t.size (slot t) b u at_gap.1 used)
      slots-filled j = rw (slot-rewritten fits b u e n j at_gap.0) (refl, refl)

      probe-filled_self : probe (rewritten t b u e n) u.k ≡ hit b
      unfolding probe
      probe-filled_self =
          walk_congr t.size _ _ u.k slots-filled t.size (home t u.k)
          ∙ walk-fill_self t.size (slot t) b u at_gap.1 used t.size (home t u.k) here

      probe-filled_other :
          (q : K) (i : ℕ) → probe t q ≡ hit i → probe (rewritten t b u e n) q ≡ hit i
      unfolding probe
      probe-filled_other q i found =
          walk_congr t.size _ _ q slots-filled t.size (home t q)
          ∙ walk-fill_other t.size (slot t) b u at_gap.1 used q t.size (home t q) i found

      pub filled-WellFormed : WellFormed (rewritten t b u e n)
      filled-WellFormed = record {
        fits = Fits-rewritten fits b u e n;
        probed = λ i h. rw (slot-rewritten fits b u e n i at_gap.0) (
            ground (
              arith,
              probe-filled_self,
              probe-filled_other (slot t i).k i,
              probed i h,
              ==_iff b i,
            ));
      }

      hit_before :
          (q : K) (i : ℕ)
          → key.beq q u.k ≡ false
          → probe (rewritten t b u e n) q ≡ hit i
          → probe t q ≡ hit i
      hit_before q i differ new =
          let found = probe-hit (Fits-rewritten fits b u e n) q i new in
          let there = slot-rewritten fits b u e n i at_gap.0 in
          ground (arith, found, there, ==_iff b i, key.beq_iff q u.k, probe-hit_iff q i)

      -- Another key is found where it was before, or not at all.
      row_at-filled :
          (q : K) (p p' : Found)
          → key.beq q u.k ≡ false
          → probe t q ≡ p
          → probe (rewritten t b u e n) q ≡ p'
          → row_at (rewritten t b u e n) p' ≡ row_at t p
      row_at-filled q (hit i) p' differ old new =
          let other : (b == i) ≡ false = ground (arith, at_gap, probe-hit fits q i, ==_iff b i) in
          let same : p' ≡ hit i = sym new ∙ probe-filled_other q i old in
          rw (same, slot-rewritten fits b u e n i at_gap.0, other)
      row_at-filled q p (hit i) differ old new = absurd (cc (hit_before q i differ new))
      row_at-filled q p p' differ old new = refl

      pub view-filled :
          (q : K)
          → view (rewritten t b u e n) q ≡ (if key.beq q u.k then some (row u) else view t q)
      unfolding view
      view-filled q = elim (Bool-cases (key.beq q u.k)) [
        | inl eq ↦
            rw ((key.beq_iff q u.k).0 eq, probe-filled_self, slot-rewritten fits b u e n b at_gap.0)
              (ground (arith, ==_iff b b, key.beq_iff u.k u.k))
        | inr differ ↦ rw differ (row_at-filled q _ _ differ refl refl)
      ]
