-- ===== src/StateTable/Put.antt =====
-- `put`, `resize` and the constructor of src/kernel/statetable.h.
use maiter_p.Base.{
  ℕ, zero, suc, ◌+◌, ◌*◌, ◌%◌, ◌^◌, Bool, true, false, List, [], ◌∷◌, Run, ok, fault, assertion,
  out_of_fuel, ◌>>=◌, ltb, ◌==◌, if◌then◌else◌,
}
use maiter_p.Kernel.{Key, Value, IterateKernel}
use maiter_p.StateTable.Defs.{
  StateTable, Bucket, at, modify, clear, bucket_idx, next_bucket, to_int,
}

-- `(int) (1 + size_ * 2)`; a negative value fails the assertion of `resize`, as 0 does.
unfoldable pub grown_size : ℕ → ℕ
grown_size n = let m = (1 + n * 2) % 2 ^ 32 in if ltb m (2 ^ 31) then m else 0

module _ {ℓ} {K V D : Type ℓ} ⦃key : Key K⦄ where
  -- The loop of `put` from bucket `b`, with `found`.
  unfoldable pub put_loop : ℕ → StateTable K V D → K → ℕ → ℕ → Run (ℕ × Bool)
  unfolding at next_bucket
  put_loop zero t k start b = fault out_of_fuel
  put_loop (suc fuel) t k start b = do
    u ← at t.buckets b
    if u.in_use
        then if key.beq u.k k
          then ok (b, true)
          else (next_bucket t b >>= λ c. elim (c == start) [
            | true ↦ ok (c, false)
            | false ↦ put_loop fuel t k start c
          ])
        else ok (b, false)

module _ {ℓ} {K V D : Type ℓ} ⦃key : Key K⦄ ⦃value : Value V⦄ ⦃kernel : IterateKernel K V D⦄ where
  -- A bucket as `std::vector::resize` makes it.
  unfoldable pub blank : Bucket K V D
  blank = record {
    k = key.no_key;
    v1 = value.zero_v;
    v2 = value.zero_v;
    v3 = kernel.no_data;
    priority = value.zero_v;
    in_use = false;
  }

  -- `buckets_.resize(n)`: the first `n` buckets, filled up with blank ones.
  unfoldable pub resize_buckets : ℕ → List (Bucket K V D) → List (Bucket K V D)
  unfolding blank
  resize_buckets zero us = []
  resize_buckets (suc n) [] = blank ∷ resize_buckets n []
  resize_buckets (suc n) (u ∷ us) = u ∷ resize_buckets n us

  unfoldable pub replace_row : V → V → D → Bucket K V D → Bucket K V D
  replace_row v1 v2 v3 u = record u {
    v1 = v1;
    v2 = v2;
    v3 = v3;
    priority = kernel.priority u.priority v2 v1;
  }

  unfoldable pub fill_row : K → V → V → D → Bucket K V D → Bucket K V D
  fill_row k v1 v2 v3 u = record {
    in_use = true;
    k = k;
    v1 = v1;
    v2 = v2;
    v3 = v3;
    priority = kernel.priority u.priority v2 v1;
  }

  -- The loop of `resize`, over a copy of the old buckets; `insert` is the call of `put`.
  unfoldable pub reinsert :
      (StateTable K V D → K → V → V → D → Run (StateTable K V D))
      → List (Bucket K V D)
      → StateTable K V D
      → Run (StateTable K V D)
  reinsert insert [] t = ok t
  reinsert insert (u ∷ us) t =
      (if u.in_use then insert t u.k u.v1 u.v2 u.v3 else ok t) >>= reinsert insert us

  unfoldable pub resize_with :
      (StateTable K V D → K → V → V → D → Run (StateTable K V D))
      → StateTable K V D
      → ℕ
      → Run (StateTable K V D)
  unfolding reinsert resize_buckets clear
  resize_with insert t zero = fault assertion
  resize_with insert t (suc n) =
      if t.size == suc n
      then ok t
      else reinsert insert t.buckets
          (clear (record t { buckets = resize_buckets (suc n) t.buckets; size = suc n }))

  -- The fuel bounds the depth of the calls of `put` by `resize`.
  unfoldable pub put : ℕ → StateTable K V D → K → V → V → D → Run (StateTable K V D)
  unfolding bucket_idx to_int put_loop modify replace_row fill_row resize_with grown_size
  put zero t k v1 v2 v3 = fault out_of_fuel
  put (suc fuel) t k v1 v2 v3 = do
    i ← bucket_idx t k
    start ← to_int i
    (b, found) ← put_loop t.size t k start start
    if found then modify t b (replace_row v1 v2 v3) else elim (ltb t.size t.entries) [
      | true ↦ do
        grown ← resize_with (put fuel) t (grown_size t.size)
        t' ← put fuel grown k v1 v2 v3
        ok (record t' { entries = t'.entries + 1 })
      | false ↦ do
        t' ← modify t b (fill_row k v1 v2 v3)
        ok (record t' { entries = t'.entries + 1 })
    ]

  unfoldable pub resize : ℕ → StateTable K V D → ℕ → Run (StateTable K V D)
  unfolding put
  resize fuel t n = resize_with (put fuel) t n

  -- The constructor `StateTable(int size)`; `Init` comes after it and sets `terminated_`.
  unfoldable pub create : ℕ → ℕ → Run (StateTable K V D)
  unfolding resize clear
  create fuel n =
      resize fuel
        (clear
          (record { buckets = []; entries = 0; size = 0; total_updates = 0; terminated = false }))
        n
