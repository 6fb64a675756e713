-- ===== src/Global/Choice.antt =====
-- What `get_iterator` of src/kernel/globaltable.h returns to the schedule thread, which asks without the
-- filter.
use maiter_p.Base.{
  ℕ, ◌≡◌, Bool, true, false, Option, none, some, List, ◌∷◌, ok, Bool-cases, inl, inr,
}
use maiter_p.Kernel.{Value, IterateKernel}
use maiter_p.StateTable.Defs.{StateTable}
use maiter_p.Iterators.Schedule.{Schedule, schedule, schedule_iterator}
use maiter_p.Global.{
  GlobalTable, TableIterator, whole, scheduled, get_iterator, table_get_iterator, no_change,
}

-- What the first attempt gives: NULL where the signal is set, the iterator over the whole table, or the
-- scheduled buckets.
unfoldable pub first_choice : Bool → Bool → Schedule → Option TableIterator
first_choice true below s = none
first_choice false true s = some (scheduled s)
first_choice false false s = some whole

module _ {ℓ} {K V D : Type ℓ} ⦃value : Value V⦄ ⦃kernel : IterateKernel K V D⦄ where
  -- Asked without the filter, on a table whose buckets can be scheduled, get_iterator answers at its
  -- first attempt: with NULL where the signal to terminate is set, or else with the scheduled buckets
  -- where the portion is below one, or the whole table.
  pub get_iterator-first :
      (g : GlobalTable K V D) (cut_index : ℕ) (t : StateTable K V D) (drawn : List ℕ)
      (later : List (StateTable K V D × List ℕ)) (chosen : List ℕ)
      → schedule t false drawn cut_index
        ≡ ok (record { scheduled_pos = chosen; b_no_change = false })
      → get_iterator g false cut_index ((t, drawn) ∷ later)
        ≡ ok (
            some (
              first_choice t.terminated g.portion_below_one
                (record { scheduled_pos = chosen; b_no_change = false })))
  unfolding get_iterator table_get_iterator no_change schedule_iterator first_choice
  get_iterator-first g cut_index t drawn later chosen run = elim (Bool-cases g.portion_below_one) [
    | inl below ↦ elim (Bool-cases t.terminated) [
      | inl signal ↦ rw (get_iterator, below, signal)
      | inr signal ↦ rw (get_iterator, below, signal, run)
    ]
    | inr below ↦ elim (Bool-cases t.terminated) [
      | inl signal ↦ rw (get_iterator, below, signal)
      | inr signal ↦ rw (get_iterator, below, signal)
    ]
  ]
