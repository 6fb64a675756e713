-- ===== src/Iterators/Schedule.antt =====
-- The choice of the buckets to process, in the constructor of `ScheduledIterator` of
-- src/kernel/statetable.h, and the loop of `schedule_iterator` around it. The random positions are
-- those of an external generator, and an argument.
use maiter_p.Base.{
  ℕ, zero, suc, Bool, true, false, not, ◌&&◌, ◌||◌, Option, none, some, List, [], ◌∷◌, Run, ok,
  fault, out_of_fuel, ◌>>=◌, leb, ◌==◌, if◌then◌else◌,
}
use maiter_p.Kernel.{Value, IterateKernel}
use maiter_p.StateTable.Defs.{StateTable, Bucket, at}

abbrev pub sample_size : ℕ
sample_size = 1000

-- `scheduled_pos` and `b_no_change`.
pub record Schedule : Type 0 where
  pub scheduled_pos : List ℕ
  pub b_no_change : Bool

module _ {ℓ} {K V D : Type ℓ} where
  -- The loops over the table from bucket `i` that push the positions of the buckets that pass a test.
  unfoldable pub push_where : (Bucket K V D → Bool) → ℕ → List (Bucket K V D) → List ℕ
  push_where test i [] = []
  push_where test i (u ∷ us) =
      if test u then i ∷ push_where test (suc i) us else push_where test (suc i) us

  -- The buckets of `n` samples: positions are drawn until one is in use.
  unfoldable pub sampled : StateTable K V D → ℕ → List ℕ → Run (List (Bucket K V D))
  sampled t zero drawn = ok []
  sampled t (suc n) [] = fault out_of_fuel
  sampled t (suc n) (rand_pos ∷ drawn) = do
    u ← at t.buckets rand_pos
    elim u.in_use [
      | true ↦ do us ← sampled t n drawn; ok (u ∷ us)
      | false ↦ sampled t (suc n) drawn
    ]

module _ {ℓ} {K V D : Type ℓ} ⦃value : Value V⦄ where
  -- `compare_priority`
  unfoldable pub compare_priority : Bucket K V D → Bucket K V D → Bool
  compare_priority a b = value.vlt b.priority a.priority

  -- `sort` by `compare_priority`; of the result only priorities are read.
  unfoldable pub insert_sorted : Bucket K V D → List (Bucket K V D) → List (Bucket K V D)
  unfolding compare_priority
  insert_sorted a [] = a ∷ []
  insert_sorted a (b ∷ rest) =
      if compare_priority b a then b ∷ insert_sorted a rest else a ∷ b ∷ rest

  unfoldable pub sort_priority : List (Bucket K V D) → List (Bucket K V D)
  unfolding insert_sorted
  sort_priority [] = []
  sort_priority (a ∷ rest) = insert_sorted a (sort_priority rest)

module _ {ℓ} {K V D : Type ℓ} ⦃value : Value V⦄ ⦃kernel : IterateKernel K V D⦄ where
  unfoldable pub is_default : Bucket K V D → Bool
  is_default u = value.veq u.v1 kernel.default_v

  unfoldable pub all_default : List (Bucket K V D) → Bool
  unfolding is_default
  all_default [] = true
  all_default (u ∷ us) = is_default u && all_default us

  unfoldable pub used_default : List (Bucket K V D) → Bool
  unfolding is_default
  used_default [] = true
  used_default (u ∷ us) = if u.in_use then is_default u && used_default us else used_default us

  -- In use, with a delta to spread, and a priority at the threshold or above it, or above it.
  unfoldable pub eligible : Bool → V → Bucket K V D → Bool
  unfolding is_default
  eligible inclusive threshold u =
      u.in_use
      && (not (is_default u)
          && (if inclusive then value.vge u.priority threshold else value.vlt threshold u.priority))

  -- The branch of a large table, with the buckets of the sample.
  unfoldable pub schedule_sampled : StateTable K V D → Bool → List (Bucket K V D) → ℕ → Run Schedule
  unfolding push_where
  schedule_sampled t bfilter us cut_index = elim (bfilter && all_default us) [
    | true ↦ ok (record { scheduled_pos = []; b_no_change = true })
    | false ↦ do
      cut ← at (sort_priority us) cut_index
      first ← at (sort_priority us) 0
      ok (record {
        scheduled_pos =
            push_where
              (eligible ((cut_index == 0) || value.veq first.priority cut.priority) cut.priority) 0
              t.buckets;
        b_no_change = false;
      })
  ]

  -- `drawn` are the positions that the generator gives, and `cut_index` is
  -- `sample_size * schedule_portion`.
  unfoldable pub schedule : StateTable K V D → Bool → List ℕ → ℕ → Run Schedule
  unfolding push_where sampled used_default
  schedule t bfilter drawn cut_index = elim (leb t.entries sample_size) [
    | true ↦ ok (record {
      scheduled_pos = push_where (λ u. u.in_use) 0 t.buckets;
      b_no_change = bfilter && used_default t.buckets;
    })
    | false ↦ sampled t sample_size drawn >>= λ us. schedule_sampled t bfilter us cut_index
  ]

  -- `schedule_iterator`, given the table and the random positions at each attempt. `none` is NULL, where
  -- the signal to terminate is set; the outer `none`, that no attempt was the last.
  unfoldable pub schedule_iterator :
      Bool → ℕ → List (StateTable K V D × List ℕ) → Run (Option (Option Schedule))
  schedule_iterator bfilter cut_index [] = ok none
  schedule_iterator bfilter cut_index ((t, drawn) ∷ later) = elim t.terminated [
    | true ↦ ok (some none)
    | false ↦ do
      s ← schedule t bfilter drawn cut_index
      elim s.b_no_change [
        | true ↦ schedule_iterator bfilter cut_index later
        | false ↦ ok (some (some s))
      ]
  ]
