-- ===== src/Kernel.antt =====
-- The interfaces of src/kernel/table.h that a vertex program implements, and what the table asks of
-- its keys and values. `float` and `double` are a type `V` with the operations that the code calls.
use maiter_p.Base.{Bool, true, false, ◌≡◌, ◌≢◌, refl, ◌↔◌, ℕ, List, Run}

-- `K()`, `operator==` on keys, `std::tr1::hash<K>`, and the conversion of a key to the `int` that
-- numbers its vertex.
pub record Key {ℓ} (K : Type ℓ) : Type ℓ where
  pub no_key : K
  pub beq : K → K → Bool
  pub beq_iff : (a b : K) → (beq a b ≡ true) ↔ (a ≡ b)
  pub hash : K → ℕ
  pub node : K → ℕ

module _ {ℓ} {K : Type ℓ} ⦃key : Key K⦄ where
  pub beq_self : (a : K) → key.beq a a ≡ true
  beq_self a = (key.beq_iff a a).1 refl

  pub ne_of_beq : (a b : K) → key.beq a b ≡ false → a ≢ b
  ne_of_beq a b h e = cc ((key.beq_iff a b).1 e)

-- The value 0, `==`, `<` and `>=` of the value type. On `float` and `double` a NaN makes both of the last
-- false.
pub record Value {ℓ} (V : Type ℓ) : Type ℓ where
  pub zero_v : V
  pub veq : V → V → Bool
  pub vlt : V → V → Bool
  pub vge : V → V → Bool

-- `IterateKernel<K, V, D>`, with `D()`. A parameter that a method changes through a reference is an
-- argument, its old value, and a part of the result. A line is the list of its bytes.
pub record IterateKernel {ℓ} (K V D : Type ℓ) : Type ℓ where
  pub no_data : D
  pub read_data : List ℕ → K → D → Run (K × D)
  pub init_c : K → D → V
  pub default_v : V
  pub init_v : K → D → V
  pub accumulate : V → V → V
  pub process_delta_v : K → V → V → D → V × V × D
  pub priority : V → V → V → V
  pub g_func : K → V → V → D → List (K × V)
