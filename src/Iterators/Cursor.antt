-- ===== src/Iterators/Cursor.antt =====
-- `Next`, `done` and the accessors at the current position of the iterators in
-- src/kernel/statetable.h, with the methods on strings of `TypedTableIterator` in src/kernel/table.h.
-- A cursor is the field `pos` plus 1.
use maiter_p.Base.{
  ℕ, zero, suc, ◌+◌, ◌≡◌, refl, Bool, true, Run, ok, fault, out_of_range, ◌>>=◌, ltb, ◌==◌, length,
  List,
}
use maiter_p.Util.Marshal.{Marshal}
use maiter_p.StateTable.Defs.{StateTable, Bucket, at}
use maiter_p.Iterators.Schedule.{Schedule}
use maiter_p.Iterators.Pass.{EntirePassIterator, advance, next}

-- `pos` as an index.
unfoldable pub position : ℕ → Run ℕ
position zero = fault out_of_range
position (suc pos) = ok pos

module _ {ℓ} {K V D : Type ℓ} where
  -- `Iterator::Next`
  unfoldable pub iterator_next : StateTable K V D → ℕ → Run (ℕ × Bool)
  unfolding advance
  iterator_next t cursor = do p ← advance (suc t.size) t cursor; ok (suc p, ltb p t.size)

  -- `Iterator::done`
  unfoldable pub iterator_done : StateTable K V D → ℕ → Bool
  iterator_done t cursor = cursor == t.size

  -- The bucket of `Iterator` and of `EntirePassIterator`.
  unfoldable pub iterator_bucket : StateTable K V D → ℕ → Run (Bucket K V D)
  unfolding at position
  iterator_bucket t cursor = do pos ← position cursor; at t.buckets pos

  -- The bucket of `ScheduledIterator`.
  unfoldable pub scheduled_iterator_bucket : StateTable K V D → Schedule → ℕ → Run (Bucket K V D)
  unfolding at position
  scheduled_iterator_bucket t s cursor = do
    pos ← position cursor
    b ← at s.scheduled_pos pos
    at t.buckets b

-- `ScheduledIterator::Next`
unfoldable pub scheduled_next : ℕ → ℕ × Bool
scheduled_next cursor = (suc cursor, true)

-- `ScheduledIterator::done`
unfoldable pub scheduled_done : Schedule → ℕ → Bool
scheduled_done s cursor = cursor == length s.scheduled_pos

abbrev as_cursor : EntirePassIterator × Bool → Run (ℕ × Bool)
as_cursor (it, cont) = ok (it.next_pos, cont)

-- `key_str`, `value1_str` and their like, over the bucket at the current position.
module _ {ℓ} {K V D : Type ℓ} where
  unfoldable pub key_str : Marshal K → Run (Bucket K V D) → Run (List ℕ)
  key_str m bucket = do u ← bucket; ok (m.marshal u.k)

  unfoldable pub value1_str : Marshal V → Run (Bucket K V D) → Run (List ℕ)
  value1_str m bucket = do u ← bucket; ok (m.marshal u.v1)

  unfoldable pub value2_str : Marshal V → Run (Bucket K V D) → Run (List ℕ)
  value2_str m bucket = do u ← bucket; ok (m.marshal u.v2)

  unfoldable pub value3_str : Marshal D → Run (Bucket K V D) → Run (List ℕ)
  value3_str m bucket = do u ← bucket; ok (m.marshal u.v3)

  -- `Iterator` moves as `EntirePassIterator` does.
  iterator_next-next :
      (t : StateTable K V D) (it : EntirePassIterator)
      → iterator_next t it.next_pos ≡ (next t it >>= as_cursor)
  unfolding iterator_next next
  iterator_next-next t it = same_moves (advance (suc t.size) t it.next_pos)
    where
      same_moves :
          (r : Run ℕ)
          → ◌≡◌ {A = Run (ℕ × Bool)} (r >>= λ p. ok (suc p, ltb p t.size)) (
              (r >>= λ p. ok (record { next_pos = suc p; total = it.total + 1 }, ltb p t.size))
              >>= as_cursor)
      same_moves (ok p) = refl
      same_moves (fault e) = refl
