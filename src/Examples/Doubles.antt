-- ===== src/Examples/Doubles.antt =====
-- The operations on `float` and `double` that the vertex programs of src/examples use.
use maiter_p.Base.{ℕ, if◌then◌else◌}
use maiter_p.Kernel.{Value}

-- `max_d` is `std::numeric_limits<double>::max()`, and `literal m e` the constant m / 10 ^ e.
pub record Double {ℓ} (V : Type ℓ) : Type ℓ where
  pub max_d : V
  pub literal : ℕ → ℕ → V
  pub of_int : ℕ → V
  pub add : V → V → V
  pub sub : V → V → V
  pub mul : V → V → V
  pub div : V → V → V

module _ {ℓ} {V : Type ℓ} ⦃value : Value V⦄ where
  -- `std::min`
  unfoldable pub min_d : V → V → V
  min_d a b = if value.vlt b a then b else a
