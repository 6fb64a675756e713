-- ===== src/Global.antt =====
-- `TypedGlobalTable` of src/kernel/globaltable.h, which passes each call on to its state table, and its
-- choice of the iterator; with `get_iterator` and the filter of `Iterator` of src/kernel/statetable.h.
use maiter_p.Base.{
  ℕ, zero, suc, ◌≡◌, Bool, true, false, ◌&&◌, Option, none, some, List, [], ◌∷◌, Run, ok, fault,
  uninitialized, out_of_fuel, ◌>>=◌,
}
use maiter_p.Kernel.{Key, Value, IterateKernel}
use maiter_p.StateTable.Defs.{StateTable, Bucket, ClutterRecord, at}
use maiter_p.StateTable.Access.{
  contains, get_f1, get_f2, get_f3, get, update_f1, update_f2, update_f3, remove, accumulate_f1,
  accumulate_f2, accumulate_f3,
}
use maiter_p.StateTable.Put.{put, resize}
use maiter_p.Iterators.Schedule.{Schedule, sample_size, schedule, is_default, schedule_iterator}
use maiter_p.Maiter.Load.{create_table}
pub mod Choice

-- `statetable` is not set until `InitStateTable`; `portion_below_one` is `schedule_portion < 1`.
pub record GlobalTable {ℓ} (K V D : Type ℓ) : Type ℓ where
  pub statetable : Option (StateTable K V D)
  pub portion_below_one : Bool
  pub binit : Bool

-- An iterator over the whole table, or over the scheduled positions.
pub data TableIterator : Type 0 where
  whole : TableIterator
  scheduled : Schedule → TableIterator

module _ {ℓ κ} {K V D : Type ℓ} {A : Type κ} where
  -- `this->statetable->...`, on a pointer that must have been set.
  unfoldable pub on_statetable : GlobalTable K V D → (StateTable K V D → Run A) → Run A
  on_statetable g f = elim g.statetable [ none ↦ fault uninitialized | some t ↦ f t ]

module _ {ℓ} {K V D : Type ℓ} where
  unfoldable pub change_statetable :
      GlobalTable K V D → (StateTable K V D → Run (StateTable K V D)) → Run (GlobalTable K V D)
  unfolding on_statetable
  change_statetable g f = do t ← on_statetable g f; ok (record g { statetable = some t })

  -- `registerMaiter`, which makes the global table; whether `schedule_portion < 1` is an argument.
  unfoldable pub register_maiter : Bool → GlobalTable K V D
  register_maiter below_one = record {
    statetable = none;
    portion_below_one = below_one;
    binit = false;
  }

  unfoldable pub initialized : GlobalTable K V D → Bool
  initialized g = g.binit

  unfoldable pub buckets_size : GlobalTable K V D → Run ℕ
  unfolding on_statetable
  buckets_size g = on_statetable g (λ t. ok t.entries)

module _ {ℓ} {K V D : Type ℓ} ⦃key : Key K⦄ where
  unfoldable pub global_contains : GlobalTable K V D → K → Run Bool
  global_contains g k = on_statetable g (λ t. contains t k)

  unfoldable pub global_get_f1 : GlobalTable K V D → K → Run V
  global_get_f1 g k = on_statetable g (λ t. get_f1 t k)

  unfoldable pub global_get_f2 : GlobalTable K V D → K → Run V
  global_get_f2 g k = on_statetable g (λ t. get_f2 t k)

  unfoldable pub global_get_f3 : GlobalTable K V D → K → Run D
  global_get_f3 g k = on_statetable g (λ t. get_f3 t k)

  -- `get_localF1` and its like.
  unfoldable pub get_local_f1 : GlobalTable K V D → K → Run V
  get_local_f1 g k = on_statetable g (λ t. get_f1 t k)

  unfoldable pub get_local_f2 : GlobalTable K V D → K → Run V
  get_local_f2 g k = on_statetable g (λ t. get_f2 t k)

  unfoldable pub get_local_f3 : GlobalTable K V D → K → Run D
  get_local_f3 g k = on_statetable g (λ t. get_f3 t k)

  unfoldable pub global_get : GlobalTable K V D → K → Run (ClutterRecord K V D)
  global_get g k = on_statetable g (λ t. get t k)

  unfoldable pub global_remove : GlobalTable K V D → K → Run Bool
  global_remove g k = on_statetable g (λ t. remove t k)

  unfoldable pub global_update_f2 : GlobalTable K V D → K → V → Run (GlobalTable K V D)
  global_update_f2 g k v = change_statetable g (λ t. update_f2 t k v)

  unfoldable pub global_update_f3 : GlobalTable K V D → K → D → Run (GlobalTable K V D)
  global_update_f3 g k v = change_statetable g (λ t. update_f3 t k v)

  unfoldable pub global_accumulate_f3 : GlobalTable K V D → K → D → Run (GlobalTable K V D)
  global_accumulate_f3 g k v = change_statetable g (λ t. accumulate_f3 t k v)

module _ {ℓ} {K V D : Type ℓ} ⦃key : Key K⦄ ⦃value : Value V⦄ ⦃kernel : IterateKernel K V D⦄ where
  unfoldable pub init_state_table : GlobalTable K V D → Run (GlobalTable K V D)
  init_state_table g = do t ← create_table; ok (record g { statetable = some t; binit = true })

  unfoldable pub global_resize : GlobalTable K V D → ℕ → Run (GlobalTable K V D)
  global_resize g n = change_statetable g (λ t. resize 2 t n)

  unfoldable pub global_put : GlobalTable K V D → K → V → V → D → Run (GlobalTable K V D)
  global_put g k v1 v2 v3 = change_statetable g (λ t. put 2 t k v1 v2 v3)

  unfoldable pub global_update_f1 : GlobalTable K V D → K → V → Run (GlobalTable K V D)
  global_update_f1 g k v = change_statetable g (λ t. update_f1 t k v)

  unfoldable pub global_accumulate_f1 : GlobalTable K V D → K → V → Run (GlobalTable K V D)
  global_accumulate_f1 g k v = change_statetable g (λ t. accumulate_f1 t k v)

  unfoldable pub global_accumulate_f2 : GlobalTable K V D → K → V → Run (GlobalTable K V D)
  global_accumulate_f2 g k v = change_statetable g (λ t. accumulate_f2 t k v)

module _ {ℓ} {K V D : Type ℓ} ⦃value : Value V⦄ ⦃kernel : IterateKernel K V D⦄ where
  -- The loop of `Iterator` over `n` samples, which stops at one with a delta other than the default.
  unfoldable pub sample_default : StateTable K V D → ℕ → List ℕ → Run Bool
  unfolding is_default
  sample_default t zero drawn = ok true
  sample_default t (suc n) [] = fault out_of_fuel
  sample_default t (suc n) (rand_pos ∷ drawn) = do
    u ← at t.buckets rand_pos
    elim u.in_use [
      | true ↦ elim (is_default u) [ true ↦ sample_default t n drawn | false ↦ ok false ]
      | false ↦ sample_default t (suc n) drawn
    ]

  -- `b_no_change` of `Iterator`: whether every sampled bucket has the default delta.
  unfoldable pub no_change : StateTable K V D → Bool → List ℕ → Run Bool
  unfolding sample_default
  no_change t bfilter drawn = elim bfilter [
    | true ↦ sample_default t sample_size drawn
    | false ↦ ok false
  ]

  -- `StateTable::get_iterator`, given the table and the random positions at each attempt.
  unfoldable pub table_get_iterator :
      Bool → List (StateTable K V D × List ℕ) → Run (Option (Option TableIterator))
  table_get_iterator bfilter [] = ok none
  table_get_iterator bfilter ((t, drawn) ∷ later) = elim t.terminated [
    | true ↦ ok (some none)
    | false ↦ do
      b_no_change ← no_change t bfilter drawn
      elim b_no_change [ true ↦ table_get_iterator bfilter later | false ↦ ok (some (some whole)) ]
  ]

  -- Of the two iterators, the portion to be scheduled says which.
  unfoldable pub get_iterator :
      GlobalTable K V D
      → Bool
      → ℕ
      → List (StateTable K V D × List ℕ)
      → Run (Option (Option TableIterator))
  get_iterator g bfilter cut_index attempts = elim g.portion_below_one [
    | true ↦ do
      s ← schedule_iterator bfilter cut_index attempts
      ok (elim s [
        | none ↦ none
        | some o ↦ some (elim o [ none ↦ none | some x ↦ some (scheduled x) ])
      ])
    | false ↦ table_get_iterator bfilter attempts
  ]
