-- ===== src/TypedTable/Tables.antt =====
-- The implementations of `TypedTable` of src/kernel/table.h: `StateTable` of src/kernel/statetable.h and
-- `TypedGlobalTable` of src/kernel/globaltable.h.
use maiter_p.Base.{ok, fault, uninitialized}
use maiter_p.Util.Marshal.{Marshal}
use maiter_p.Kernel.{Key, Value, IterateKernel}
use maiter_p.StateTable.Defs.{StateTable}
use maiter_p.StateTable.Access.{contains, get_f1, get_f2, get_f3}
use maiter_p.StateTable.Put.{put}
use maiter_p.Global.{
  GlobalTable, global_contains, global_get_f1, global_get_f2, global_get_f3, global_put,
}
use maiter_p.TypedTable.{TypedTable}

-- The marshals of a `TableDescriptor`.
pub record Marshals {ℓ} (K V D : Type ℓ) : Type ℓ where
  pub key_marshal : Marshal K
  pub value1_marshal : Marshal V
  pub value2_marshal : Marshal V
  pub value3_marshal : Marshal D

module _ {ℓ} {K V D : Type ℓ} ⦃key : Key K⦄ ⦃value : Value V⦄ ⦃kernel : IterateKernel K V D⦄ where
  -- A call of `put` doubles the table once at most.
  unfoldable pub typed_statetable : Marshals K V D → TypedTable (StateTable K V D) K V D
  unfolding contains get_f1 get_f2 get_f3 put
  typed_statetable info = record {
    contains = contains;
    get_f1 = get_f1;
    get_f2 = get_f2;
    get_f3 = get_f3;
    put = put 2;
    kmarshal = ok info.key_marshal;
    v1marshal = ok info.value1_marshal;
    v2marshal = ok info.value2_marshal;
    v3marshal = ok info.value3_marshal;
  }

  -- The bodies of its four marshal methods are empty.
  unfoldable pub typed_globaltable : TypedTable (GlobalTable K V D) K V D
  unfolding global_contains global_get_f1 global_get_f2 global_get_f3 global_put
  typed_globaltable = record {
    contains = global_contains;
    get_f1 = global_get_f1;
    get_f2 = global_get_f2;
    get_f3 = global_get_f3;
    put = global_put;
    kmarshal = fault uninitialized;
    v1marshal = fault uninitialized;
    v2marshal = fault uninitialized;
    v3marshal = fault uninitialized;
  }
