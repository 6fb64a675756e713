-- ===== src/StateTable/Defs.antt =====
-- The records of src/kernel/statetable.h, its bucket arithmetic and its search for a key.
-- V1 and V2 are one type `V`, as in every table of the program. Counters are `int64_t` in the source
-- and count entries and updates; they are unbounded here.
use maiter_p.Base.{
  ℕ, zero, suc, ◌+◌, ◌%◌, ◌^◌, Bool, true, false, Option, none, some, List, [], ◌∷◌, Run, ok, fault,
  out_of_range, division_by_zero, out_of_fuel, ◌>>=◌, ltb, ◌==◌, if◌then◌else◌, set, map,
}
use maiter_p.Kernel.{Key}

-- `StateTable::Bucket`; `v1` is the delta, `v2` the value, `v3` the adjacency data.
pub record Bucket {ℓ} (K V D : Type ℓ) : Type ℓ where
  pub k : K
  pub v1 : V
  pub v2 : V
  pub v3 : D
  pub priority : V
  pub in_use : Bool

-- `ClutterRecord`
pub record ClutterRecord {ℓ} (K V D : Type ℓ) : Type ℓ where
  pub k : K
  pub v1 : V
  pub v2 : V
  pub v3 : D

pub record StateTable {ℓ} (K V D : Type ℓ) : Type ℓ where
  pub buckets : List (Bucket K V D)
  pub entries : ℕ
  pub size : ℕ
  pub total_updates : ℕ
  pub terminated : Bool

-- `buckets_[i]`
unfoldable pub at {ℓ} : {A : Type ℓ} → List A → ℕ → Run A
at (u ∷ us) (suc n) = at us n
at (u ∷ us) zero = ok u
at [] n = fault out_of_range

-- A value stored in an `int`; one that does not fit is no index of a vector.
unfoldable pub to_int : ℕ → Run ℕ
to_int n = if ltb n (2 ^ 31) then ok n else fault out_of_range

unfoldable pub remainder : ℕ → ℕ → Run ℕ
remainder n zero = fault division_by_zero
remainder n (suc m) = ok (n % suc m)

module _ {ℓ} {K V D : Type ℓ} where
  -- `Bucket& u = buckets_[b]; u = f(u);`
  unfoldable pub modify :
      StateTable K V D → ℕ → (Bucket K V D → Bucket K V D) → Run (StateTable K V D)
  unfolding at
  modify t b f = do u ← at t.buckets b; ok (record t { buckets = set t.buckets b (f u) })

  unfoldable pub release : Bucket K V D → Bucket K V D
  release u = record u { in_use = false }

  unfoldable pub clear : StateTable K V D → StateTable K V D
  unfolding release
  clear t = record t { buckets = map release t.buckets; entries = 0 }

  -- The method `size` counts entries; the field is the number of buckets.
  unfoldable pub entries_of : StateTable K V D → ℕ
  entries_of t = t.entries

  unfoldable pub empty : StateTable K V D → Bool
  unfolding entries_of
  empty t = entries_of t == 0

  unfoldable pub terminate : StateTable K V D → StateTable K V D
  terminate t = record t { terminated = true }

module _ {ℓ} {K V D : Type ℓ} ⦃key : Key K⦄ where
  -- The result is a `uint32_t`.
  unfoldable pub bucket_idx : StateTable K V D → K → Run ℕ
  unfolding remainder
  bucket_idx t k = do h ← remainder (key.hash k) t.size; ok (h % 2 ^ 32)

  -- `b = (b + 1) % size_`, in `int`
  unfoldable pub next_bucket : StateTable K V D → ℕ → Run ℕ
  unfolding to_int remainder
  next_bucket t b = do c ← to_int (b + 1); r ← remainder c t.size; to_int r

  -- The loop of `bucket_for_key` from bucket `b`; -1 is `none`.
  unfoldable pub bucket_for_key_loop : ℕ → StateTable K V D → K → ℕ → ℕ → Run (Option ℕ)
  unfolding at next_bucket
  bucket_for_key_loop zero t k start b = fault out_of_fuel
  bucket_for_key_loop (suc fuel) t k start b = do
    u ← at t.buckets b
    if u.in_use
        then if key.beq u.k k
          then ok (some b)
          else (next_bucket t b >>= λ c. elim (c == start) [
            | true ↦ ok none
            | false ↦ bucket_for_key_loop fuel t k start c
          ])
        else ok none

  unfoldable pub bucket_for_key : StateTable K V D → K → Run (Option ℕ)
  unfolding bucket_idx bucket_for_key_loop to_int
  bucket_for_key t k = do
    i ← bucket_idx t k
    start ← to_int i
    bucket_for_key_loop t.size t k start start
