-- ===== src/StateTable/Access.antt =====
-- Reads, updates and accumulation in src/kernel/statetable.h: each looks the key up first.
use maiter_p.Base.{
  ℕ, ◌+◌, Bool, true, false, none, some, Run, ok, fault, log_fatal, assertion, ◌>>=◌,
}
use maiter_p.Kernel.{Key, Value, IterateKernel}
use maiter_p.StateTable.Defs.{StateTable, Bucket, ClutterRecord, at, modify, bucket_for_key}

module _ {ℓ} {K V D : Type ℓ} ⦃key : Key K⦄ where
  unfoldable pub contains : StateTable K V D → K → Run Bool
  contains t k = do b ← bucket_for_key t k; ok (elim b [ none ↦ false | some _ ↦ true ])

  -- The first lines of `getF1` and its like: the LOG_FATAL line throws where no bucket holds the key.
  unfoldable pub bucket_or_fatal : StateTable K V D → K → Run ℕ
  bucket_or_fatal t k = do b ← bucket_for_key t k; elim b [ none ↦ fault log_fatal | some i ↦ ok i ]

  unfoldable pub get_f1 : StateTable K V D → K → Run V
  unfolding bucket_or_fatal at
  get_f1 t k = do b ← bucket_or_fatal t k; u ← at t.buckets b; ok u.v1

  unfoldable pub get_f2 : StateTable K V D → K → Run V
  unfolding bucket_or_fatal at
  get_f2 t k = do b ← bucket_or_fatal t k; u ← at t.buckets b; ok u.v2

  unfoldable pub get_f3 : StateTable K V D → K → Run D
  unfolding bucket_or_fatal at
  get_f3 t k = do b ← bucket_or_fatal t k; u ← at t.buckets b; ok u.v3

  unfoldable pub get : StateTable K V D → K → Run (ClutterRecord K V D)
  unfolding bucket_or_fatal at
  get t k = do
    b ← bucket_or_fatal t k
    u ← at t.buckets b
    ok (record { k = k; v1 = u.v1; v2 = u.v2; v3 = u.v3 })

  unfoldable pub update_f2 : StateTable K V D → K → V → Run (StateTable K V D)
  unfolding bucket_or_fatal modify
  update_f2 t k v = do b ← bucket_or_fatal t k; modify t b (λ u. record u { v2 = v })

  unfoldable pub update_f3 : StateTable K V D → K → D → Run (StateTable K V D)
  unfolding bucket_or_fatal modify
  update_f3 t k v = do b ← bucket_or_fatal t k; modify t b (λ u. record u { v3 = v })

  unfoldable pub remove : StateTable K V D → K → Run Bool
  remove t k = fault log_fatal

  -- Empty in the source.
  unfoldable pub accumulate_f3 : StateTable K V D → K → D → Run (StateTable K V D)
  accumulate_f3 t k v = ok t

module _ {ℓ} {K V D : Type ℓ} ⦃key : Key K⦄ ⦃value : Value V⦄ where
  -- `buckets_[b].priority = 0`
  unfoldable pub update_f1 : StateTable K V D → K → V → Run (StateTable K V D)
  unfolding bucket_or_fatal modify
  update_f1 t k v = do
    b ← bucket_or_fatal t k
    t' ← modify t b (λ u. record u { v1 = v; priority = value.zero_v })
    ok (record t' { total_updates = t'.total_updates + 1 })

module _ {ℓ} {K V D : Type ℓ} ⦃key : Key K⦄ ⦃kernel : IterateKernel K V D⦄ where
  unfoldable pub add_to_v1 : V → Bucket K V D → Bucket K V D
  add_to_v1 v u =
      let v1 = kernel.accumulate u.v1 v in
      record u { v1 = v1; priority = kernel.priority u.priority u.v2 v1 }

  -- The LOG_FATAL line has no `std::endl` and does not throw; the assertion after it fails.
  unfoldable pub accumulate_f1 : StateTable K V D → K → V → Run (StateTable K V D)
  unfolding modify add_to_v1
  accumulate_f1 t k v = do
    b ← bucket_for_key t k
    elim b [ none ↦ fault assertion | some i ↦ modify t i (add_to_v1 v) ]

  unfoldable pub add_to_v2 : V → Bucket K V D → Bucket K V D
  add_to_v2 v u = record u { v2 = kernel.accumulate u.v2 v }

  unfoldable pub accumulate_f2 : StateTable K V D → K → V → Run (StateTable K V D)
  unfolding bucket_or_fatal modify add_to_v2
  accumulate_f2 t k v = do b ← bucket_or_fatal t k; modify t b (add_to_v2 v)
