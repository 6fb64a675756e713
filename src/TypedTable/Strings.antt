-- ===== src/TypedTable/Strings.antt =====
-- The methods on strings of `TypedTable` in src/kernel/table.h: what `update_str` writes, `get_str` and
-- `contains_str` find.
use maiter_p.Base.{
  ℕ, ◌+◌, ◌*◌, ◌^◌, ◌<◌, ◌≡◌, refl, ap, ◌∙◌, true, some, none, List, ◌++◌, Run, ok, ◌>>=◌, Returns,
  Option,
}
use maiter_p.Kernel.{Key, Value, IterateKernel}
use maiter_p.Util.Marshal.{IsReadBack}
use maiter_p.StateTable.Defs.{StateTable}
use maiter_p.StateTable.Invariant.{Row, WellFormed, view}
use maiter_p.StateTable.Lookup.{readers-Answers, or_fatal, is_some}
use maiter_p.StateTable.Total.{Stores, put-Stores}
use maiter_p.TypedTable.{contains_str, get_str, update_str}
use maiter_p.TypedTable.Tables.{Marshals, typed_statetable}

-- The marshals read back what they write of a key and its row.
pub record ReadsBack {ℓ} {K V D : Type ℓ} (info : Marshals K V D) (k : K) (v1 v2 : V) (v3 : D)
    : Type ℓ where
  pub key : IsReadBack info.key_marshal k
  pub value1 : IsReadBack info.value1_marshal v1
  pub value2 : IsReadBack info.value2_marshal v2
  pub value3 : IsReadBack info.value3_marshal v3

module _ {ℓ} {K V D : Type ℓ} ⦃key : Key K⦄ ⦃value : Value V⦄ ⦃kernel : IterateKernel K V D⦄
    (info : Marshals K V D) where
  -- The row of the key as strings.
  abbrev pub row_str : Row V D → List ℕ
  row_str (v1, v2, v3) =
      (info.value1_marshal.marshal v1 ++ info.value2_marshal.marshal v2)
      ++ info.value3_marshal.marshal v3

  get_row :
      (o : Option (Row V D)) {r₁ r₂ : Run V} {r₃ : Run D}
      → r₁ ≡ or_fatal (λ r. r.0) o
      → r₂ ≡ or_fatal (λ r. r.1) o
      → r₃ ≡ or_fatal (λ r. r.2) o
      → (r₁ >>= λ v1. r₂ >>= λ v2. r₃ >>= λ v3. ok (row_str (v1, v2, v3))) ≡ or_fatal row_str o
  get_row none e₁ e₂ e₃ = rw e₁ refl
  get_row (some r) e₁ e₂ e₃ = rw (e₁, e₂, e₃) refl

  module _ {t : StateTable K V D} (wf : WellFormed t) (k : K) where
    -- The readers on strings answer from the abstract map.
    str_readers-view :
        IsReadBack info.key_marshal k
        → (contains_str (typed_statetable info) t (info.key_marshal.marshal k)
            ≡ ok (is_some (view t k)))
          × (get_str (typed_statetable info) t (info.key_marshal.marshal k)
              ≡ or_fatal row_str (view t k))
    unfolding contains_str get_str typed_statetable
    str_readers-view back =
        let answers = readers-Answers wf k in
        (
          rw back answers.contains_is,
          rw back (get_row (view t k) answers.get_f1_is answers.get_f2_is answers.get_f3_is),
        )

  -- On a well-formed table that may double its size once within int, where the marshals read back the
  -- key and its row, update_str of the marshalled key and row ends; the table stays well formed and
  -- stores the row, contains_str finds the key, and get_str gives back the three marshalled parts, one
  -- after the other.
  pub update_str-Stores :
      {t : StateTable K V D} (wf : WellFormed t) (k : K) (v1 v2 : V) (v3 : D)
      → ReadsBack info k v1 v2 v3
      → 1 + t.size * 2 < 2 ^ 31
      → Returns
          (update_str
            (typed_statetable info)
            t
            (info.key_marshal.marshal k)
            (info.value1_marshal.marshal v1)
            (info.value2_marshal.marshal v2)
            (info.value3_marshal.marshal v3))
          (λ t'.
            Stores t k (v1, v2, v3) t'
            × (contains_str (typed_statetable info) t' (info.key_marshal.marshal k) ≡ ok true)
            × (get_str (typed_statetable info) t' (info.key_marshal.marshal k)
                ≡ ok (row_str (v1, v2, v3))))
  unfolding update_str typed_statetable
  update_str-Stores wf k v1 v2 v3 back fit =
      let (t', run, stores) = put-Stores wf k v1 v2 v3 0 fit in
      let (has, gets) = str_readers-view stores.wf k back.key in
      (
        t',
        rw (back.key, back.value1, back.value2, back.value3) run,
        (
          stores,
          has ∙ ap (λ o. ok (is_some o)) stores.stored,
          gets ∙ ap (or_fatal row_str) stores.stored,
        ),
      )
