-- ===== src/StateTable/Overwrite.antt =====
-- `put` of src/kernel/statetable.h on a table whose buckets are all in use: the test `entries_ > size_`
-- lets it pass, and the loop ends at the home bucket of the new key.
use maiter_p.Base.{
  ℕ, zero, suc, ◌+◌, ◌≤◌, ◌<◌, ◌≡◌, refl, ap, ◌∙◌, true, false, none, some, Returns, arith,
  if◌then◌else◌, le→ltb, ◌==◌, ==_iff, ==_self, Bool-cases, inl, inr, ◌≢◌,
}
use maiter_p.Kernel.{Key, beq_self, ne_of_beq, Value, IterateKernel}
use maiter_p.StateTable.Defs.{StateTable, Bucket}
use maiter_p.StateTable.Put.{blank, put, fill_row}
use maiter_p.StateTable.Probe.{
  Found, hit, gap, full, walk, Fits, slot, home, home-lt, probe, bucket_idx-home, to_int-home,
}
use maiter_p.StateTable.Walk.{walk_congr, walk_here, walk_rekeyed}
use maiter_p.StateTable.Invariant.{
  Row, row, used, rewritten, WellFormed, view, row_at, probe-hit, probe-gap, modify-rewritten,
  slot-rewritten, Fits-rewritten,
}
use maiter_p.StateTable.Insert.{put_loop_found}
use maiter_p.StateTable.Room.{used-set-used, used-lt-length, full-others}

module _ {ℓ} {K V D : Type ℓ} ⦃key : Key K⦄ ⦃value : Value V⦄ ⦃kernel : IterateKernel K V D⦄ where
  -- What becomes of `t`: the row `r` of `k` takes the place of the row of the key `victim`.
  pub record Overwrites (t : StateTable K V D) (k victim : K) (r : Row V D) (t' : StateTable K V D)
      : Type ℓ where
    pub wf : WellFormed t'
    pub reads :
        (q : K)
        → view t' q ≡ (if key.beq q k then some r else if key.beq q victim then none else view t q)
    pub same_size : t'.size ≡ t.size
    pub counts : t'.entries ≡ t.entries + 1
    pub same_used : used t'.buckets ≡ used t.buckets

  pub hit_some :
      {t : StateTable K V D}
      → WellFormed t
      → (k : K) (i : ℕ) → probe t k ≡ hit i
      → view t k ≡ some (row (slot t i))
  unfolding view
  hit_some {t} wf k i e = rw e

  round_trip :
      {t : StateTable K V D}
      → WellFormed t
      → (k : K) (p : Found) → probe t k ≡ p
      → view t k ≡ none
      → used t.buckets ≡ t.size
      → probe t k ≡ full
  unfolding view
  round_trip {t} wf k full e absent filled = e
  round_trip {t} wf k (hit i) e absent filled = absurd (cc (hit_some wf k i e))
  round_trip {t} wf k (gap i) e absent filled =
      let (below, free) = probe-gap wf.fits k i e in
      absurd (
        omega (
          arith,
          filled,
          wf.fits.width,
          used-lt-length blank t.buckets i (rw wf.fits.width below) free,
        ))

  module _ {t : StateTable K V D} (wf : WellFormed t) (k : K) (v1 v2 : V) (v3 : D)
      (round : probe t k ≡ full) where
    abbrev h : ℕ
    h = home t k

    abbrev u : Bucket K V D
    u = fill_row k v1 v2 v3 (slot t h)

    abbrev after : StateTable K V D
    after = rewritten t h u (t.entries + 1) t.total_updates

    slot-after : (j : ℕ) → slot after j ≡ (if h == j then u else slot t j)
    slot-after j = slot-rewritten wf.fits h u (t.entries + 1) t.total_updates j (home-lt wf.fits k)

    others : (j : ℕ) → j < t.size → ((slot t j).in_use ≡ true) × ((slot t j).k ≢ k)
    others = full-others wf.fits k round

    Fits-after : Fits after
    Fits-after = Fits-rewritten wf.fits h u (t.entries + 1) t.total_updates

    -- The new key is found at its home bucket at once.
    first_step : (f : ℕ) → 0 < f → walk f (slot after) k t.size h ≡ hit h
    unfolding fill_row
    first_step zero p = elim p [ ]
    first_step (suc f) p =
        walk_here t.size (slot after) k f h (rw (slot-after h, ==_self h))
          (rw (slot-after h, ==_self h))

    probe-after_self : probe after k ≡ hit h
    unfolding probe
    probe-after_self = first_step t.size wf.fits.nonempty

    probe-after_other : (q : K) → q ≢ k → q ≢ (slot t h).k → probe after q ≡ probe t q
    unfolding probe fill_row
    probe-after_other q ne ne' =
        walk_congr t.size _ _ q (λ j. rw (slot-after j) (refl, refl)) t.size (home t q)
        ∙ walk_rekeyed t.size (slot t) h u q (others h (home-lt wf.fits k)).0 refl ne' ne t.size
            (home t q)

    -- No bucket but the home bucket held the victim.
    victim_only : (i : ℕ) → i < t.size → (h == i) ≡ false → (slot t i).k ≢ (slot t h).k
    victim_only i below ne e = absurd (
        ground (
          arith,
          e,
          ==_iff h i,
          wf.probed i below (others i below).0,
          wf.probed h (home-lt wf.fits k) (others h (home-lt wf.fits k)).0,
        ))

    WellFormed-after : WellFormed after
    unfolding fill_row
    WellFormed-after = record {
      fits = Fits-after;
      probed = λ i below. elim (Bool-cases (h == i)) [
        | inl eq ↦ rw (slot-after i, eq) (λ _. probe-after_self ∙ ap hit ((==_iff h i).0 eq))
        | inr ne ↦
            rw (slot-after i, ne)
              (λ in_use.
                probe-after_other (slot t i).k (others i below).1 (victim_only i below ne)
                ∙ wf.probed i below in_use)
      ];
    }

    gone : (p : Found) → (slot t h).k ≢ k → probe after (slot t h).k ≡ p → row_at after p ≡ none
    unfolding fill_row
    gone (hit i) ne e =
        let found = probe-hit Fits-after (slot t h).k i e in
        absurd (ground (arith, found, slot-after i, ==_iff h i, victim_only i))
    gone p ne e = refl

    kept : (q : K) (p : Found) → q ≢ (slot t h).k → probe t q ≡ p → row_at after p ≡ row_at t p
    kept q (hit i) ne e =
        let other : (h == i) ≡ false = ground (arith, probe-hit wf.fits q i e, ==_iff h i) in
        rw (slot-after i, other)
    kept q p ne e = refl

    reads-after :
        (q : K)
        → view after q ≡ (
            if key.beq q k
            then some (v1, v2, v3)
            else if key.beq q (slot t h).k
            then none
            else view t q)
    unfolding view fill_row
    reads-after q = elim (Bool-cases (key.beq q k)) [
      | inl eq ↦ rw ((key.beq_iff q k).0 eq, probe-after_self, slot-after h, ==_self h, beq_self k)
      | inr ne ↦ elim (Bool-cases (key.beq q (slot t h).k)) [
        | inl eq' ↦
            rw (ne, eq', (key.beq_iff q _).0 eq')
              (gone _ (λ e. ne_of_beq q k ne ((key.beq_iff q _).0 eq' ∙ e)) refl)
        | inr ne' ↦
            rw (ne, ne', probe-after_other q (ne_of_beq q k ne) (ne_of_beq q _ ne'))
              (kept q _ (ne_of_beq q _ ne') refl)
      ]
    ]

  -- On a well-formed table with every bucket in use and no more entries than buckets, put of a new key
  -- ends, and removes the row of the key that stands in the home bucket.
  pub put-Overwrites :
      {t : StateTable K V D}
      → WellFormed t
      → (fuel : ℕ) (k : K) (v1 v2 : V) (v3 : D) → view t k ≡ none
      → used t.buckets ≡ t.size
      → t.entries ≤ t.size
      → Returns (put (suc fuel) t k v1 v2 v3) (Overwrites t k (slot t (home t k)).k (v1, v2, v3))
  unfolding put fill_row
  put-Overwrites {t = t} wf fuel k v1 v2 v3 absent filled few =
      let round : probe t k ≡ full = round_trip wf k _ refl absent filled in
      let used-after =
        used-set-used blank (u wf k v1 v2 v3 round) refl t.buckets (home t k)
          (others wf k v1 v2 v3 round (home t k) (home-lt wf.fits k)).0 in
      (
        after wf k v1 v2 v3 round,
        rw (
          bucket_idx-home wf.fits k,
          to_int-home wf.fits k,
          put_loop_found wf k v1 v2 v3 round,
          le→ltb _ _ few,
          modify-rewritten wf.fits (home t k) (fill_row k v1 v2 v3) (home-lt wf.fits k),
        ),
        record {
          wf = WellFormed-after wf k v1 v2 v3 round;
          reads = reads-after wf k v1 v2 v3 round;
          same_size = refl;
          counts = refl;
          same_used = used-after;
        },
      )
