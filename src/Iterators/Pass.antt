-- ===== src/Iterators/Pass.antt =====
-- `EntirePassIterator` of src/kernel/statetable.h, and the loops over it: `estimate_prog` of the
-- termination check in src/kernel/table.h and `dump` of src/kernel/kernel.h.
use maiter_p.Base.{
  ℕ, zero, suc, ◌+◌, ◌-◌, Bool, true, false, List, [], ◌∷◌, ◌++◌, Run, ok, fault, out_of_fuel,
  ◌>>=◌, ltb, ◌==◌, if◌then◌else◌,
}
use maiter_p.Kernel.{Value, IterateKernel}
use maiter_p.StateTable.Defs.{StateTable, Bucket, at}

-- `next_pos` is the field `pos` of the source plus 1.
pub record EntirePassIterator : Type 0 where
  pub next_pos : ℕ
  pub total : ℕ

unfoldable pub entirepass_iterator : EntirePassIterator
entirepass_iterator = record { next_pos = 0; total = 0 }

-- What the check for termination asks of `double`; `of_value` is the cast.
pub record Progress {ℓ} (V R : Type ℓ) : Type ℓ where
  pub zero_r : R
  pub lowest : R
  pub plus : R → R → R
  pub of_value : V → R
  pub distance : R → R → R
  pub at_most : R → R → Bool

module _ {ℓ} {K V D : Type ℓ} where
  -- The loop of `Next` from position `p`: the first position in use, or the size.
  unfoldable pub advance : ℕ → StateTable K V D → ℕ → Run ℕ
  unfolding at
  advance zero t p = fault out_of_fuel
  advance (suc fuel) t p = elim (ltb p t.size) [
    | true ↦ do u ← at t.buckets p; elim u.in_use [ true ↦ ok p | false ↦ advance fuel t (suc p) ]
    | false ↦ ok p
  ]

  unfoldable pub next : StateTable K V D → EntirePassIterator → Run (EntirePassIterator × Bool)
  unfolding advance
  next t it = do
    p ← advance (suc t.size) t it.next_pos
    ok (record { next_pos = suc p; total = it.total + 1 }, ltb p t.size)

  unfoldable pub done : StateTable K V D → EntirePassIterator → Bool
  done t it = it.next_pos == t.size

  -- The loop `while (!it->done()) { if (!it->Next()) break; body }`; the body is given the bucket.
  unfoldable pub entire_pass {κ} :
      {A : Type κ} → (A → Bucket K V D → A) → ℕ → StateTable K V D → EntirePassIterator → A → Run A
  unfolding next done at
  entire_pass body zero t it a = fault out_of_fuel
  entire_pass body (suc fuel) t it a = elim (done t it) [
    | true ↦ ok a
    | false ↦ do
      (it', cont) ← next t it
      elim cont [
        | true ↦ do u ← at t.buckets (it'.next_pos - 1); entire_pass body fuel t it' (body a u)
        | false ↦ ok a
      ]
  ]

module _ {ℓ} {K V D R : Type ℓ} ⦃value : Value V⦄ ⦃kernel : IterateKernel K V D⦄
    ⦃progress : Progress V R⦄ where
  unfoldable pub add_progress : R → Bucket K V D → R
  add_progress partial_curr u =
      if value.veq u.v2 kernel.default_v
      then partial_curr
      else progress.plus partial_curr (progress.of_value u.v2)

  unfoldable pub estimate_prog : StateTable K V D → Run R
  unfolding entire_pass entirepass_iterator add_progress
  estimate_prog t = entire_pass add_progress (suc t.size) t entirepass_iterator progress.zero_r

  -- `serializeToSnapshot`: the updates and the progress.
  unfoldable pub serialize_to_snapshot : StateTable K V D → Run (ℕ × R)
  unfolding estimate_prog
  serialize_to_snapshot t = do total_curr ← estimate_prog t; ok (t.total_updates, total_curr)

module _ {ℓ} {K V D R : Type ℓ} ⦃progress : Progress V R⦄ where
  unfoldable pub dump_row : List (K × V) × R × R → Bucket K V D → List (K × V) × R × R
  dump_row (lines, total_f1, total_f2) u = (
    lines ++ (u.k, u.v2) ∷ [],
    progress.plus total_f1 (progress.of_value u.v1),
    progress.plus total_f2 (progress.of_value u.v2),
  )

  -- What `dump` writes to the file, and its totals of the deltas and the values.
  unfoldable pub dump : StateTable K V D → Run (List (K × V) × R × R)
  unfolding entire_pass entirepass_iterator dump_row
  dump t =
      entire_pass dump_row (suc t.size) t entirepass_iterator ([], progress.zero_r, progress.zero_r)
