-- ===== src/TypedTable.antt =====
-- `TypedTable` of src/kernel/table.h, the interface of a table, and its methods on strings.
use maiter_p.StateTable.Defs.{ClutterRecord}
use maiter_p.Base.{ℕ, Bool, List, ◌∷◌, ◌++◌, Run, ok, ◌>>=◌}
use maiter_p.Util.Marshal.{Marshal}
pub mod Tables
pub mod Descriptor
pub mod Strings

-- The methods that a table implements, of those that the methods on strings call; `T` is the table. A marshal
-- that a body without a `return` should give is a fault.
pub record TypedTable {ℓ} (T K V D : Type ℓ) : Type ℓ where
  pub contains : T → K → Run Bool
  pub get_f1 : T → K → Run V
  pub get_f2 : T → K → Run V
  pub get_f3 : T → K → Run D
  pub put : T → K → V → V → D → Run T
  pub kmarshal : Run (Marshal K)
  pub v1marshal : Run (Marshal V)
  pub v2marshal : Run (Marshal V)
  pub v3marshal : Run (Marshal D)

module _ {ℓ} {T K V D : Type ℓ} (typed : TypedTable T K V D) where
  unfoldable pub contains_str : T → List ℕ → Run Bool
  contains_str t s = do m ← typed.kmarshal; k ← m.unmarshal s; typed.contains t k

  unfoldable pub get_str : T → List ℕ → Run (List ℕ)
  get_str t s = do
    m ← typed.kmarshal
    k ← m.unmarshal s
    m₁ ← typed.v1marshal
    v1 ← typed.get_f1 t k
    m₂ ← typed.v2marshal
    v2 ← typed.get_f2 t k
    m₃ ← typed.v3marshal
    v3 ← typed.get_f3 t k
    ok ((m₁.marshal v1 ++ m₂.marshal v2) ++ m₃.marshal v3)

  unfoldable pub update_str : T → List ℕ → List ℕ → List ℕ → List ℕ → Run T
  update_str t kstr vstr1 vstr2 vstr3 = do
    m ← typed.kmarshal
    k ← m.unmarshal kstr
    m₁ ← typed.v1marshal
    v1 ← m₁.unmarshal vstr1
    m₂ ← typed.v2marshal
    v2 ← m₂.unmarshal vstr2
    m₃ ← typed.v3marshal
    v3 ← m₃.unmarshal vstr3
    typed.put t k v1 v2 v3

-- `operator<<` of `ClutterRecord`: a tab behind the key, and bars between the fields.
module _ {ℓ} {K V D : Type ℓ} (out_k : K → List ℕ) (out_v : V → List ℕ) (out_d : D → List ℕ) where
  unfoldable pub print_record : ClutterRecord K V D → List ℕ
  print_record p = out_k p.k ++ 9 ∷ (out_v p.v1 ++ 124 ∷ (out_v p.v2 ++ 124 ∷ out_d p.v3))
