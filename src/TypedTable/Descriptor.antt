-- ===== src/TypedTable/Descriptor.antt =====
-- `TableDescriptor` and `TableBase` of src/kernel/table.h, and `CreateTable` of
-- src/kernel/table-registry.h. A pointer is an `Option`, and `none` the null pointer.
use maiter_p.Base.{
  ◌≡◌, refl, Bool, false, Option, none, some, Run, ok, fault, assertion, uninitialized, ◌>>=◌,
}
use maiter_p.Util.Marshal.{Marshal}
use maiter_p.StateTable.Defs.{StateTable}

-- The pointers, of which the program asks only whether they are null, and the two numbers. `New` of the
-- factory gives a new state table.
pub record TableDescriptor {ℓ} (K V D R : Type ℓ) : Type ℓ where
  pub schedule_portion : R
  pub has_sharder : Bool
  pub has_iterkernel : Bool
  pub has_termchecker : Bool
  pub key_marshal : Option (Marshal K)
  pub value1_marshal : Option (Marshal V)
  pub value2_marshal : Option (Marshal V)
  pub value3_marshal : Option (Marshal D)
  pub partition_factory : Option (Run (StateTable K V D))

-- `TableBase`: the state of a table beside its buckets.
pub record TableBase {ℓ} (K V D R : Type ℓ) : Type ℓ where
  pub info_ : TableDescriptor K V D R
  pub terminated_ : Bool

-- `assert(p != NULL)`
abbrev pub assert_set {ℓ κ} : {A : Type κ} {B : Type ℓ} → Option A → Run B → Run B
assert_set none rest = fault assertion
assert_set (some a) rest = rest

module _ {ℓ} {K V D R : Type ℓ} where
  -- `Reset`, which leaves the numbers alone.
  unfoldable pub reset_descriptor : TableDescriptor K V D R → TableDescriptor K V D R
  reset_descriptor info = record info {
    partition_factory = none;
    key_marshal = none;
    value1_marshal = none;
    value2_marshal = none;
    value3_marshal = none;
    has_sharder = false;
    has_iterkernel = false;
    has_termchecker = false;
  }

  -- `TableBase::Init`
  unfoldable pub init_base : TableDescriptor K V D R → Run (TableBase K V D R)
  init_base info = assert_set info.key_marshal (
      assert_set info.value1_marshal (
        assert_set info.value2_marshal
          (assert_set info.value3_marshal (ok (record { info_ = info; terminated_ = false })))))

  -- `CreateTable`: the descriptor with new marshals, and the new table with it.
  unfoldable pub create_descriptor :
      R
      → Bool
      → Bool
      → Bool
      → Marshal K
      → Marshal V
      → Marshal V
      → Marshal D
      → Run (StateTable K V D)
      → TableDescriptor K V D R
  create_descriptor schedule_portion sharder iterkernel termchecker mk mv1 mv2 mv3 new_table =
      record {
        schedule_portion = schedule_portion;
        has_sharder = sharder;
        has_iterkernel = iterkernel;
        has_termchecker = termchecker;
        key_marshal = some mk;
        value1_marshal = some mv1;
        value2_marshal = some mv2;
        value3_marshal = some mv3;
        partition_factory = some new_table;
      }

  unfoldable pub create_from : TableDescriptor K V D R → Run (StateTable K V D × TableBase K V D R)
  unfolding init_base
  create_from info = elim info.partition_factory [
    | none ↦ fault uninitialized
    | some new_table ↦ do t ← new_table; base ← init_base info; ok (t, base)
  ]

  -- A descriptor that was reset fails the first assertion of `Init`.
  init_base-reset_descriptor :
      (info : TableDescriptor K V D R) → init_base (reset_descriptor info) ≡ fault assertion
  unfolding init_base reset_descriptor
  init_base-reset_descriptor info = refl
