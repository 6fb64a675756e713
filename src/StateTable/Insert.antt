-- ===== src/StateTable/Insert.antt =====
-- `put` of src/kernel/statetable.h, where it does not grow the table.
use maiter_p.Base.{
  ℕ, suc, ◌+◌, ◌≤◌, ◌<◌, ◌≡◌, refl, ap, ◌∙◌, none, some, ok, Returns, arith, if◌then◌else◌, le→ltb,
}
use maiter_p.Kernel.{Key, Value, IterateKernel}
use maiter_p.StateTable.Defs.{StateTable, Bucket}
use maiter_p.StateTable.Put.{blank, put, put_loop, replace_row, fill_row}
use maiter_p.StateTable.Probe.{
  Found, place_of, hit, gap, full, slot, home, probe, bucket_idx-home, to_int-home, put_loop-probe,
}
use maiter_p.StateTable.Invariant.{
  Row, used, rewritten, WellFormed, view, probe-hit, probe-gap, modify-rewritten,
  touched-WellFormed, view-touched, filled-WellFormed, view-filled,
}
use maiter_p.StateTable.Room.{used-set_free, used-set-used, full-used}

module _ {ℓ} {K V D : Type ℓ} ⦃key : Key K⦄ ⦃value : Value V⦄ ⦃kernel : IterateKernel K V D⦄ where
  -- `t'` is `t` with the row `r` written at the key `k`. The count of entries grows as the number of
  -- buckets in use does.
  pub record Puts (t : StateTable K V D) (k : K) (r : Row V D) (t' : StateTable K V D)
      : Type ℓ where
    pub wf : WellFormed t'
    pub same_size : t'.size ≡ t.size
    pub reads : (q : K) → view t' q ≡ (if key.beq q k then some r else view t q)
    pub counts : t'.entries + used t.buckets ≡ t.entries + used t'.buckets
    pub few : used t'.buckets ≤ suc (used t.buckets)
    pub updates : t'.total_updates ≡ t.total_updates
    pub signal : t'.terminated ≡ t.terminated

  module _ {t : StateTable K V D} (wf : WellFormed t) (k : K) (v1 v2 : V) (v3 : D) where
    abbrev u_hit : ℕ → Bucket K V D
    u_hit b = replace_row v1 v2 v3 (slot t b)

    put-hit :
        (b : ℕ)
        → probe t k ≡ hit b
        → Puts t k (v1, v2, v3) (rewritten t b (u_hit b) t.entries t.total_updates)
    unfolding replace_row
    put-hit b here =
        let (below, in_use, name) = probe-hit wf.fits k b here in
        record {
          wf = touched-WellFormed wf k b here (u_hit b) _ _ in_use name;
          same_size = refl;
          reads = view-touched wf k b here (u_hit b) _ _ in_use name;
          counts = omega (arith, used-set-used blank (u_hit b) in_use t.buckets b in_use);
          few = omega (arith, used-set-used blank (u_hit b) in_use t.buckets b in_use);
          updates = refl;
          signal = refl;
        }

    abbrev u_gap : ℕ → Bucket K V D
    u_gap b = fill_row k v1 v2 v3 (slot t b)

    put-gap :
        (b : ℕ)
        → probe t k ≡ gap b
        → Puts t k (v1, v2, v3) (rewritten t b (u_gap b) (t.entries + 1) t.total_updates)
    unfolding fill_row
    put-gap b here =
        let (below, free) = probe-gap wf.fits k b here in
        let more = used-set_free blank (u_gap b) refl t.buckets b (rw wf.fits.width below) free in
        record {
          wf = filled-WellFormed wf (u_gap b) b here _ _ refl;
          same_size = refl;
          reads = view-filled wf (u_gap b) b here _ _ refl;
          counts = omega arith;
          few = omega arith;
          updates = refl;
          signal = refl;
        }

    pub put_loop_found :
        {p : Found}
        → probe t k ≡ p
        → put_loop t.size t k (home t k) (home t k) ≡ ok (place_of (home t k) p)
    put_loop_found here = put_loop-probe wf.fits k ∙ ap (λ p. ok (place_of (home t k) p)) here

    put_found :
        (fuel : ℕ) (p : Found)
        → probe t k ≡ p
        → (view t k ≡ none → (used t.buckets < t.size) × (t.entries ≤ t.size))
        → Returns (put (suc fuel) t k v1 v2 v3) (Puts t k (v1, v2, v3))
    unfolding put
    put_found fuel (hit b) here room =
        let (below, _, _) = probe-hit wf.fits k b here in
        (
          _,
          rw (
            bucket_idx-home wf.fits k,
            to_int-home wf.fits k,
            put_loop_found here,
            modify-rewritten wf.fits b (replace_row v1 v2 v3) below,
          ),
          put-hit b here,
        )
    put_found fuel (gap b) here room =
        let (below, _) = probe-gap wf.fits k b here in
        let absent : view t k ≡ none = unfold view in rw here in
        (
          _,
          rw (
            bucket_idx-home wf.fits k,
            to_int-home wf.fits k,
            put_loop_found here,
            le→ltb _ _ (room absent).1,
            modify-rewritten wf.fits b (fill_row k v1 v2 v3) below,
          ),
          put-gap b here,
        )
    put_found fuel full here room =
        let absent : view t k ≡ none = unfold view in rw here in
        absurd (omega (arith, full-used wf.fits k here, (room absent).0))

    -- On a well-formed table with a free bucket and no more entries than buckets, or that holds the
    -- key, put ends and is the update of the abstract map at the key.
    pub put-Puts :
        (fuel : ℕ)
        → (view t k ≡ none → (used t.buckets < t.size) × (t.entries ≤ t.size))
        → Returns (put (suc fuel) t k v1 v2 v3) (Puts t k (v1, v2, v3))
    put-Puts fuel = put_found fuel _ refl
