-- ===== src/StateTable/Grow.antt =====
-- The branch of `put` of src/kernel/statetable.h that grows the table, and `put` on all branches.
use native.Mathlib.Nat.{mod-eq_of_lt}
use maiter_p.Base.{
  ℕ, suc, ◌+◌, ◌*◌, ◌^◌, ◌≤◌, ◌<◌, ◌≡◌, refl, ap, ◌∙◌, none, some, ok, ◌>>=◌, Returns, >>=-Returns,
  arith, if◌then◌else◌, lt→ltb,
}
use maiter_p.Kernel.{Key, Value, IterateKernel}
use maiter_p.StateTable.Defs.{StateTable}
use maiter_p.StateTable.Put.{put, resize, grown_size}
use maiter_p.StateTable.Probe.{hit, gap, full, Found, probe, bucket_idx-home, to_int-home}
use maiter_p.StateTable.Invariant.{Row, used, WellFormed, view}
use maiter_p.StateTable.Insert.{put-Puts, put_loop_found}
use maiter_p.StateTable.Room.{used-le-length}
use maiter_p.StateTable.Overwrite.{hit_some}
use maiter_p.StateTable.Resize.{Stands, resize-Stands}

module _ {ℓ} {K V D : Type ℓ} ⦃key : Key K⦄ ⦃value : Value V⦄ ⦃kernel : IterateKernel K V D⦄ where
  recounted : StateTable K V D → ℕ → StateTable K V D
  recounted t e = record t { entries = e }

  WellFormed-recounted : {t : StateTable K V D} (e : ℕ) → WellFormed t → WellFormed (recounted t e)
  unfolding probe recounted
  WellFormed-recounted e wf = record {
    fits = record { width = wf.fits.width; nonempty = wf.fits.nonempty; small = wf.fits.small };
    probed = wf.probed;
  }

  view-recounted : (t : StateTable K V D) (e : ℕ) (q : K) → view (recounted t e) q ≡ view t q
  unfolding view probe recounted
  view-recounted t e q = refl

  -- `t'` is `t` in a bigger table, with the row `r` written at the key `k`, which is counted twice.
  pub record Grows (t : StateTable K V D) (k : K) (r : Row V D) (t' : StateTable K V D)
      : Type ℓ where
    pub wf : WellFormed t'
    pub size_is : t'.size ≡ 1 + t.size * 2
    pub reads : (q : K) → view t' q ≡ (if key.beq q k then some r else view t q)
    pub counts : t'.entries ≡ suc (used t'.buckets)

  module _ {t : StateTable K V D} (wf : WellFormed t) (k : K) (v1 v2 : V) (v3 : D) (fuel : ℕ)
      (over : t.size < t.entries) (fit : 1 + t.size * 2 < 2 ^ 31) (absent : view t k ≡ none) where
    grown_size-eq : grown_size t.size ≡ 1 + t.size * 2
    unfolding grown_size
    grown_size-eq =
        rw (mod-eq_of_lt {n = 1 + t.size * 2} {m = 2 ^ 32} (omega arith)) (rw (lt→ltb _ _ fit))

    regrown :
        Returns
          (resize (suc fuel) t (grown_size t.size))
          λ t'. Stands (1 + t.size * 2) (view t) t' × (used t'.buckets ≤ used t.buckets)
    regrown = rw grown_size-eq (
        resize-Stands wf fuel (1 + t.size * 2) (λ e. absurd (omega arith)) (omega arith) fit
          (omega (arith, used-le-length t.buckets, wf.fits.width)))

    -- `put` on the grown table, with the second `++entries_`.
    put_grown :
        {grown : StateTable K V D}
        → Stands (1 + t.size * 2) (view t) grown
        → used grown.buckets ≤ used t.buckets
        → Returns
            (put (suc fuel) grown k v1 v2 v3 >>= λ t'. ok (recounted t' (t'.entries + 1)))
            (Grows t k (v1, v2, v3))
    unfolding recounted
    put_grown {grown} s fewer =
        let few : used t.buckets ≤ t.size =
          omega (arith, used-le-length t.buckets, wf.fits.width) in
        let (t', run, p) =
          put-Puts s.wf k v1 v2 v3 fuel
            (λ _. (omega (arith, s.size_is, few), omega (arith, s.size_is, s.counted, few))) in
        (
          recounted t' (t'.entries + 1),
          rw run,
          record {
            wf = WellFormed-recounted (t'.entries + 1) p.wf;
            size_is = p.same_size ∙ s.size_is;
            reads = λ q.
                view-recounted t' _ q
                ∙ p.reads q
                ∙ ap (λ o. if key.beq q k then some (v1, v2, v3) else o) (s.reads q);
            counts = omega (arith, p.counts, s.counted);
          },
        )

    put_not_found :
        (p : Found)
        → probe t k ≡ p
        → Returns (put (suc (suc fuel)) t k v1 v2 v3) (Grows t k (v1, v2, v3))
    unfolding put resize recounted
    put_not_found (hit i) e = absurd (cc (hit_some wf k i e))
    put_not_found (gap i) e =
        rw
          (
            bucket_idx-home wf.fits k,
            to_int-home wf.fits k,
            put_loop_found wf k v1 v2 v3 e,
            lt→ltb _ _ over,
          )
          (>>=-Returns _ _ regrown (λ grown (s, fewer). put_grown s fewer))
    put_not_found full e =
        rw
          (
            bucket_idx-home wf.fits k,
            to_int-home wf.fits k,
            put_loop_found wf k v1 v2 v3 e,
            lt→ltb _ _ over,
          )
          (>>=-Returns _ _ regrown (λ grown (s, fewer). put_grown s fewer))

    -- On a well-formed table with more entries counted than buckets, whose doubled size is within int,
    -- put of a new key doubles the table, updates the map at the key, and leaves one entry too many
    -- counted.
    pub put-Grows : Returns (put (suc (suc fuel)) t k v1 v2 v3) (Grows t k (v1, v2, v3))
    put-Grows = put_not_found _ refl
