-- ===== src/StateTable/Update.antt =====
-- The writing methods of src/kernel/statetable.h on a key that the table holds: each changes the row
-- of its key alone. On another key they end in the exception or the failed assertion.
use maiter_p.Base.{
  ℕ, ◌+◌, ◌≡◌, refl, ap, ◌∙◌, none, some, ok, fault, log_fatal, assertion, Returns, arith,
  if◌then◌else◌,
}
use mathlib.Core.Option.{some-injective}
use mathlib.Core.Path.{subst}
use maiter_p.Kernel.{Key, Value, IterateKernel}
use maiter_p.StateTable.Defs.{StateTable, Bucket, modify, bucket_for_key}
use maiter_p.StateTable.Access.{
  update_f1, update_f2, update_f3, accumulate_f1, accumulate_f2, add_to_v1, add_to_v2,
}
use maiter_p.StateTable.Put.{blank}
use maiter_p.StateTable.Probe.{Found, hit, gap, full, slot, probe}
use maiter_p.StateTable.Invariant.{
  Row, row, used, rewritten, WellFormed, view, row_at, probe-hit, modify-rewritten,
  touched-WellFormed, view-touched,
}
use maiter_p.StateTable.Room.{used-set-used}
use maiter_p.StateTable.Overwrite.{hit_some}
use maiter_p.StateTable.Lookup.{bucket_for_key-found}

module _ {ℓ} {K V D : Type ℓ} ⦃key : Key K⦄ ⦃value : Value V⦄ ⦃kernel : IterateKernel K V D⦄ where
  -- `t'` is `t` with the row `r` at the key `k`, after `n` more updates.
  pub record Updates (t : StateTable K V D) (k : K) (r : Row V D) (n : ℕ) (t' : StateTable K V D)
      : Type ℓ where
    pub wf : WellFormed t'
    pub reads : (q : K) → view t' q ≡ (if key.beq q k then some r else view t q)
    pub same_size : t'.size ≡ t.size
    pub same_entries : t'.entries ≡ t.entries
    pub same_used : used t'.buckets ≡ used t.buckets
    pub updates : t'.total_updates ≡ t.total_updates + n
    pub signal : t'.terminated ≡ t.terminated

  Updates-row :
      {t : StateTable K V D} {k : K} {r r' : Row V D} {n : ℕ} {t' : StateTable K V D}
      → Updates t k r n t'
      → r ≡ r'
      → Updates t k r' n t'
  Updates-row {t} {k} {n = n} {t' = t'} p e = subst (λ y. Updates t k y n t') e p

  abbrev pub touched_by :
      StateTable K V D → ℕ → (Bucket K V D → Bucket K V D) → ℕ → StateTable K V D
  touched_by t b f m = rewritten t b (f (slot t b)) t.entries m

  module _ {t : StateTable K V D} (wf : WellFormed t) (k : K) where
    -- The bucket of a key that has a row.
    pub bucket_with_row :
        (d v : V) (x : D)
        → view t k ≡ some (d, v, x)
        → (b : ℕ) × (probe t k ≡ hit b) × (row (slot t b) ≡ (d, v, x))
    unfolding view
    bucket_with_row d v x = bucket_at d v x _ refl
      where
        bucket_at :
            (d v : V) (x : D) (p : Found)
            → probe t k ≡ p
            → row_at t p ≡ some (d, v, x)
            → (b : ℕ) × (probe t k ≡ hit b) × (row (slot t b) ≡ (d, v, x))
        bucket_at d v x (hit b) e found = (b, e, some-injective _ _ found)
        bucket_at d v x (gap b) e found = cc
        bucket_at d v x full e found = cc

    bucket_absent : (p : Found) → probe t k ≡ p → view t k ≡ none → bucket_for_key t k ≡ ok none
    bucket_absent (hit b) e absent = absurd (cc (hit_some wf k b e, absent))
    bucket_absent (gap b) e absent = bucket_for_key-found wf k e
    bucket_absent full e absent = bucket_for_key-found wf k e

    -- The bucket `b` of the key, overwritten by a function that keeps the key and the use mark.
    record Touched (d v : V) (x : D) (f : Bucket K V D → Bucket K V D) : Type ℓ where
      b : ℕ
      found : bucket_for_key t k ≡ ok (some b)
      done : modify t b f ≡ ok (touched_by t b f t.total_updates)
      held : row (slot t b) ≡ (d, v, x)
      becomes :
          (n m : ℕ)
          → m ≡ t.total_updates + n
          → Updates t k (row (f (slot t b))) n (touched_by t b f m)

    touch :
        (d v : V) (x : D) (f : Bucket K V D → Bucket K V D)
        → view t k ≡ some (d, v, x)
        → ((u : Bucket K V D) → ((f u).k ≡ u.k) × ((f u).in_use ≡ u.in_use))
        → Touched d v x f
    touch d v x f present keeps =
        let (b, here, r) = bucket_with_row d v x present in
        let (below, used_b, name_b) = probe-hit wf.fits k b here in
        let used' = (keeps (slot t b)).1 ∙ used_b in
        let name' = (keeps (slot t b)).0 ∙ name_b in
        record {
          b = b;
          found = bucket_for_key-found wf k here;
          done = modify-rewritten wf.fits b f below;
          held = r;
          becomes = λ n m e. record {
            wf = touched-WellFormed wf k b here (f (slot t b)) t.entries m used' name';
            reads = view-touched wf k b here (f (slot t b)) t.entries m used' name';
            same_size = refl;
            same_entries = refl;
            same_used = used-set-used blank (f (slot t b)) used' t.buckets b used_b;
            updates = e;
            signal = refl;
          };
        }

    -- How the row of the key changes under each method.
    module _ (d v : V) (x : D) (present : view t k ≡ some (d, v, x)) where
      -- On a well-formed table with a row for the key, updateF1 ends, replaces the delta of that row
      -- alone and counts an update.
      update_f1-Updates : (a : V) → Returns (update_f1 t k a) (Updates t k (a, v, x) 1)
      unfolding update_f1
      update_f1-Updates a =
          let c =
            touch d v x (λ u. record u { v1 = a; priority = value.zero_v }) present
              (λ u. (refl, refl)) in
          (
            touched_by t c.b (λ u. record u { v1 = a; priority = value.zero_v })
                (t.total_updates + 1),
            rw (c.found, c.done),
            Updates-row (c.becomes 1 (t.total_updates + 1) (refl)) (ap (λ y. (a, y.1, y.2)) c.held),
          )

      -- On a well-formed table with a row for the key, updateF2 ends and replaces the value of that row
      -- alone.
      update_f2-Updates : (a : V) → Returns (update_f2 t k a) (Updates t k (d, a, x) 0)
      unfolding update_f2
      update_f2-Updates a =
          let c = touch d v x (λ u. record u { v2 = a }) present (λ u. (refl, refl)) in
          (
            touched_by t c.b (λ u. record u { v2 = a }) (t.total_updates),
            rw (c.found, c.done),
            Updates-row (c.becomes 0 (t.total_updates) (omega arith))
                (ap (λ y. (y.0, a, y.2)) c.held),
          )

      -- On a well-formed table with a row for the key, updateF3 ends and replaces the adjacency data of
      -- that row alone.
      update_f3-Updates : (a : D) → Returns (update_f3 t k a) (Updates t k (d, v, a) 0)
      unfolding update_f3
      update_f3-Updates a =
          let c = touch d v x (λ u. record u { v3 = a }) present (λ u. (refl, refl)) in
          (
            touched_by t c.b (λ u. record u { v3 = a }) (t.total_updates),
            rw (c.found, c.done),
            Updates-row (c.becomes 0 (t.total_updates) (omega arith))
                (ap (λ y. (y.0, y.1, a)) c.held),
          )

      -- On a well-formed table with a row for the key, accumulateF1 ends and accumulates the value into
      -- the delta of that row alone.
      accumulate_f1-Updates :
          (a : V) → Returns (accumulate_f1 t k a) (Updates t k (kernel.accumulate d a, v, x) 0)
      unfolding accumulate_f1 add_to_v1
      accumulate_f1-Updates a =
          let c = touch d v x (add_to_v1 a) present (λ u. (refl, refl)) in
          (
            touched_by t c.b (add_to_v1 a) (t.total_updates),
            rw (c.found, c.done),
            Updates-row (c.becomes 0 (t.total_updates) (omega arith))
                (ap (λ y. (kernel.accumulate y.0 a, y.1, y.2)) c.held),
          )

      -- On a well-formed table with a row for the key, accumulateF2 ends and accumulates the value into
      -- the value of that row alone.
      accumulate_f2-Updates :
          (a : V) → Returns (accumulate_f2 t k a) (Updates t k (d, kernel.accumulate v a, x) 0)
      unfolding accumulate_f2 add_to_v2
      accumulate_f2-Updates a =
          let c = touch d v x (add_to_v2 a) present (λ u. (refl, refl)) in
          (
            touched_by t c.b (add_to_v2 a) (t.total_updates),
            rw (c.found, c.done),
            Updates-row (c.becomes 0 (t.total_updates) (omega arith))
                (ap (λ y. (y.0, kernel.accumulate y.1 a, y.2)) c.held),
          )

      -- On a well-formed table with a row for the key, each of the writers ends and changes that row
      -- alone: updateF1 replaces the delta and counts an update, updateF2 replaces the value, updateF3
      -- replaces the adjacency data, accumulateF1 accumulates into the delta, and accumulateF2 into the
      -- value.
      pub writers-Updates :
          (a : V) (y : D)
          → Returns (update_f1 t k a) (Updates t k (a, v, x) 1)
            × Returns (update_f2 t k a) (Updates t k (d, a, x) 0)
            × Returns (update_f3 t k y) (Updates t k (d, v, y) 0)
            × Returns (accumulate_f1 t k a) (Updates t k (kernel.accumulate d a, v, x) 0)
            × Returns (accumulate_f2 t k a) (Updates t k (d, kernel.accumulate v a, x) 0)
      writers-Updates a y = (
        update_f1-Updates a,
        update_f2-Updates a,
        update_f3-Updates y,
        accumulate_f1-Updates a,
        accumulate_f2-Updates a,
      )

    -- On a well-formed table without the key, accumulateF1 fails its assertion and the other writers
    -- throw.
    pub writers-absent :
        view t k ≡ none
        → (a : V) (x : D)
        → (update_f1 t k a ≡ fault log_fatal)
          × (update_f2 t k a ≡ fault log_fatal)
          × (update_f3 t k x ≡ fault log_fatal)
          × (accumulate_f1 t k a ≡ fault assertion)
          × (accumulate_f2 t k a ≡ fault log_fatal)
    unfolding update_f1 update_f2 update_f3 accumulate_f1 accumulate_f2
    writers-absent absent a x =
        let e = bucket_absent _ refl absent in (rw e, rw e, rw e, rw e, rw e)
