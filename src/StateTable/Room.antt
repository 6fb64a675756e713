-- ===== src/StateTable/Room.antt =====
-- How many buckets of the table of src/kernel/statetable.h are in use. A search that comes back to its
-- start has seen them all, so a table with a free bucket never sends a search round.
use native.Mathlib.Nat.{mod-eq_of_lt, mod-eq-sub-mod, mod-add-mod}
use maiter_p.Base.{
  ℕ, zero, suc, ◌+◌, ◌-◌, ◌%◌, ◌≤◌, ◌<◌, ◌≡◌, refl, ap, ◌∙◌, ◌≢◌, true, false, List, [], ◌∷◌, arith,
  length, get_or, set,
}
use maiter_p.Kernel.{Key, Value, IterateKernel}
use maiter_p.StateTable.Defs.{StateTable, Bucket}
use maiter_p.StateTable.Put.{blank}
use maiter_p.StateTable.Probe.{full, walk, Fits, slot, home, home-lt, probe}
use maiter_p.StateTable.Walk.{walk-full, walk-full_next}
use maiter_p.StateTable.Invariant.{used}

module _ {ℓ} {K V D : Type ℓ} where
  pub used-le-length : (us : List (Bucket K V D)) → used us ≤ length us
  unfolding used
  used-le-length [] = omega arith
  used-le-length (u ∷ us) = ground (arith, used-le-length us)

  pub used-lt-length :
      (d : Bucket K V D) (us : List (Bucket K V D)) (b : ℕ)
      → b < length us
      → (get_or us b d).in_use ≡ false
      → used us < length us
  unfolding used get_or
  used-lt-length d [] b h free = absurd (omega arith)
  used-lt-length d (u ∷ us) zero h free = ground (arith, used-le-length us)
  used-lt-length d (u ∷ us) (suc b) h free = ground (arith, used-lt-length d us b)

  module _ (d u : Bucket K V D) (in_use : u.in_use ≡ true) where
    pub used-set_free :
        (us : List (Bucket K V D)) (b : ℕ)
        → b < length us
        → (get_or us b d).in_use ≡ false
        → used (set us b u) ≡ suc (used us)
    unfolding used get_or
    used-set_free [] b h free = absurd (omega arith)
    used-set_free (x ∷ us) zero h free = ground arith
    used-set_free (x ∷ us) (suc b) h free = ground (arith, used-set_free us b)

    pub used-set-used :
        (us : List (Bucket K V D)) (b : ℕ)
        → (get_or us b d).in_use ≡ true
        → used (set us b u) ≡ used us
    unfolding used get_or
    used-set-used [] b held = refl
    used-set-used (x ∷ us) zero held = ground arith
    used-set-used (x ∷ us) (suc b) held = ground (arith, used-set-used us b)

  pub used-eq-length :
      (d : Bucket K V D) (us : List (Bucket K V D))
      → ((j : ℕ) → j < length us → (get_or us j d).in_use ≡ true)
      → used us ≡ length us
  unfolding used get_or
  used-eq-length d [] all = refl
  used-eq-length d (u ∷ us) all =
      ground (arith, all 0 (omega arith), used-eq-length d us (λ j h. all (suc j) (omega arith)))

turn_to : (h j n : ℕ) → h < n → j < n → (h + (j + n - h) % n) % n ≡ j
turn_to h j n p q = grind (arith, mod-eq-sub-mod, mod-eq_of_lt)

module _ {ℓ} {K V D : Type ℓ} ⦃key : Key K⦄ ⦃value : Value V⦄ ⦃kernel : IterateKernel K V D⦄
    {t : StateTable K V D} (fits : Fits t) (k : K) (round : probe t k ≡ full) where
  left_to_see :
      (i f : ℕ) → f + i ≡ t.size → walk f (slot t) k t.size ((home t k + i) % t.size) ≡ full
  unfolding probe
  left_to_see zero f e =
      let all : f ≡ t.size = omega arith in
      let begin : (home t k + 0) % t.size ≡ home t k =
        ap (λ (x : ℕ). x % t.size) (omega arith) ∙ mod-eq_of_lt (home-lt fits k) in
      cc
  left_to_see (suc i) f e =
      let turn : ((home t k + i) % t.size + 1) % t.size ≡ (home t k + suc i) % t.size =
        mod-add-mod (home t k + i) t.size 1 ∙ ap (λ (x : ℕ). x % t.size) (omega arith) in
      rw turn at
        (walk-full_next t.size (slot t) k fits.nonempty f _ (left_to_see i (suc f) (omega arith)))

  seen : (j : ℕ) → j < t.size → ((slot t j).in_use ≡ true) × ((slot t j).k ≢ k)
  seen j h =
      let i = (j + t.size - home t k) % t.size in
      let back : (home t k + i) % t.size ≡ j = turn_to (home t k) j t.size (home-lt fits k) h in
      let inside : i < t.size = omega (arith, fits.nonempty) in
      rw back at (
        walk-full t.size (slot t) k fits.nonempty (t.size - i) _
          (left_to_see i (t.size - i) (omega arith)) (omega arith))

  pub full-used : used t.buckets ≡ t.size
  full-used = used-eq-length blank t.buckets (λ j h. (seen j (rw (← fits.width) h)).0) ∙ fits.width

  pub full-others : (j : ℕ) → j < t.size → ((slot t j).in_use ≡ true) × ((slot t j).k ≢ k)
  full-others = seen
