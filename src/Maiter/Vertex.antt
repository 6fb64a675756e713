-- ===== src/Maiter/Vertex.antt =====
-- What `run_iter` of src/kernel/kernel.h does to the bucket of its vertex and to those of its targets.
use maiter_p.Base.{ℕ, ◌+◌, ◌<◌, ◌≡◌, refl, ap, ◌∙◌, true, List, ◌++◌, ok, ==_self, set-set}
use maiter_p.Kernel.{Key, Value, IterateKernel}
use maiter_p.StateTable.Defs.{StateTable, Bucket, at, modify}
use maiter_p.StateTable.Access.{accumulate_f1, accumulate_f2, update_f1, add_to_v1, add_to_v2}
use maiter_p.StateTable.Put.{blank}
use maiter_p.StateTable.Probe.{hit, slot, probe, at-get_or}
use maiter_p.StateTable.Invariant.{
  rewritten, WellFormed, probe-hit, modify-rewritten, slot-rewritten, touched-WellFormed,
  probe-touched,
}
use maiter_p.StateTable.Lookup.{bucket_for_key-found}
use maiter_p.StateTable.Update.{touched_by}
use maiter_p.Maiter.Iterate.{process_row, spread_vertex}

module _ {ℓ} {K V D : Type ℓ} ⦃key : Key K⦄ ⦃value : Value V⦄ ⦃kernel : IterateKernel K V D⦄ where
  -- The key `k` stands in the bucket `b`.
  pub record IsAt (t : StateTable K V D) (k : K) (b : ℕ) : Type 0 where
    pub wf : WellFormed t
    pub found : probe t k ≡ hit b

  module _ {t : StateTable K V D} {k : K} {b : ℕ} (here : IsAt t k b) where
    open here use {wf, found}

    IsAt-facts : (b < t.size) × ((slot t b).in_use ≡ true) × ((slot t b).k ≡ k)
    IsAt-facts = probe-hit wf.fits k b found

    pub at-slot : at t.buckets b ≡ ok (slot t b)
    at-slot = at-get_or t.buckets b blank (rw wf.fits.width IsAt-facts.0)

    module _ (u : Bucket K V D) (e n : ℕ) (in_use : u.in_use ≡ true) (name : u.k ≡ k) where
      pub IsAt-rewritten : IsAt (rewritten t b u e n) k b
      IsAt-rewritten = record {
        wf = touched-WellFormed wf k b found u e n in_use name;
        found = probe-touched wf k b found u e n in_use name k ∙ found;
      }

      pub slot-here : slot (rewritten t b u e n) b ≡ u
      slot-here = slot-rewritten wf.fits b u e n b IsAt-facts.0 ∙ rw (==_self b)

    pub modify-at :
        (f : Bucket K V D → Bucket K V D) → modify t b f ≡ ok (touched_by t b f t.total_updates)
    modify-at f = modify-rewritten wf.fits b f IsAt-facts.0

    pub accumulate_f1-at :
        (a : V) → accumulate_f1 t k a ≡ ok (touched_by t b (add_to_v1 a) t.total_updates)
    unfolding accumulate_f1
    accumulate_f1-at a = rw (bucket_for_key-found wf k found, modify-at (add_to_v1 a))

    pub accumulate_f2-at :
        (a : V) → accumulate_f2 t k a ≡ ok (touched_by t b (add_to_v2 a) t.total_updates)
    unfolding accumulate_f2
    accumulate_f2-at a = rw (bucket_for_key-found wf k found, modify-at (add_to_v2 a))

    pub update_f1-at :
        (a : V)
        → update_f1 t k a
          ≡ ok (
              touched_by t b
                (λ u. record u { v1 = a; priority = value.zero_v })
                (t.total_updates + 1))
    unfolding update_f1
    update_f1-at a = rw (bucket_for_key-found wf k found, modify-at _)

  -- The bucket was overwritten by `u`, a row of the same key.
  module _ {t : StateTable K V D} {k : K} {b : ℕ} (here : IsAt t k b) (u : Bucket K V D) (e n : ℕ)
      (in_use : u.in_use ≡ true) (name : u.k ≡ k) where
    abbrev t' : StateTable K V D
    t' = rewritten t b u e n

    here' : IsAt t' k b
    here' = IsAt-rewritten here u e n in_use name

    -- A second write replaces the first.
    rewritten-rewritten : (w : Bucket K V D) (m : ℕ) → rewritten t' b w e m ≡ rewritten t b w e m
    rewritten-rewritten w m =
        ap (λ us. record t { buckets = us; entries = e; total_updates = m })
          (set-set t.buckets b u w)

    touched_again :
        (f : Bucket K V D → Bucket K V D) (m : ℕ) → touched_by t' b f m ≡ rewritten t b (f u) e m
    touched_again f m =
        ap (λ w. rewritten t' b (f w) e m) (slot-here here u e n in_use name)
        ∙ rewritten-rewritten (f u) m

    pub at_again : at t'.buckets b ≡ ok u
    at_again = at-slot here' ∙ ap ok (slot-here here u e n in_use name)

    pub accumulate_f2_again :
        (a : V) → accumulate_f2 t' k a ≡ ok (rewritten t b (add_to_v2 a u) e n)
    accumulate_f2_again a = accumulate_f2-at here' a ∙ ap ok (touched_again (add_to_v2 a) n)

    pub update_f1_again :
        (a : V)
        → update_f1 t' k a
          ≡ ok (rewritten t b (record u { v1 = a; priority = value.zero_v }) e (n + 1))
    update_f1_again a =
        update_f1-at here' a
        ∙ ap ok (touched_again (λ x. record x { v1 = a; priority = value.zero_v }) (n + 1))

  -- The bucket after its vertex was processed: the delta `d` has gone into the value.
  unfoldable pub settled : Bucket K V D → Bucket K V D
  settled u = record u {
    v1 = kernel.default_v;
    v2 = kernel.accumulate u.v2 u.v1;
    priority = value.zero_v;
  }

  -- The locked part of `run_iter` on a bucket in use.
  module _ {t : StateTable K V D} {b : ℕ} (here : IsAt t (slot t b).k b)
      (plain : (k : K) (d v : V) (x : D) → kernel.process_delta_v k d v x ≡ (d, v, x)) where
    abbrev u₀ : Bucket K V D
    u₀ = slot t b

    process_row-plain : process_row u₀ ≡ u₀
    unfolding process_row
    process_row-plain = rw (plain u₀.k u₀.v1 u₀.v2 u₀.v3)

    modify_first : modify t b process_row ≡ ok (rewritten t b u₀ t.entries t.total_updates)
    modify_first =
        modify-at here process_row
        ∙ ap (λ w. ok (rewritten t b w t.entries t.total_updates)) process_row-plain

    pub spread_vertex-settled :
        (out : List (K × V))
        → spread_vertex t b out
          ≡ ok (
            rewritten t b (settled u₀) t.entries (t.total_updates + 1),
            out ++ kernel.g_func u₀.k u₀.v1 (kernel.accumulate u₀.v2 u₀.v1) u₀.v3,
          )
    unfolding spread_vertex settled add_to_v2
    spread_vertex-settled out =
        let used = (IsAt-facts here).1 in
        rw (
          at-slot here,
          modify_first,
          at_again here u₀ t.entries t.total_updates used refl,
          accumulate_f2_again here u₀ t.entries t.total_updates used refl u₀.v1,
          at_again here (add_to_v2 u₀.v1 u₀) t.entries t.total_updates used refl,
          update_f1_again here (add_to_v2 u₀.v1 u₀) t.entries t.total_updates used refl
              kernel.default_v,
        )
