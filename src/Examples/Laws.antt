-- ===== src/Examples/Laws.antt =====
-- The vertex programs of src/examples meet what accumulative iteration asks of them.
use maiter_p.Base.{◌≡◌, refl, ap, ◌∙◌, true, false, arith, Bool-cases, inl, inr, ℕ}
use maiter_p.Kernel.{Key, Value}
use maiter_p.Accumulation.{AccMonoid, Accumulative, sent, along-add, along-default}
use maiter_p.Examples.Doubles.{Double, min_d}
use maiter_p.Examples.Shortestpath.{Link, Casts, shortestpath}
use maiter_p.Examples.Katz.{katz}
use maiter_p.Examples.Adsorption.{adsorption}

module _ {ℓ} {V : Type ℓ} (value : Value V) (double : Double V) where
  -- `<` is a total order, as it is but for NaN, and `max_d` is on top.
  pub record Ordered : Type ℓ where
    pub lt_irrefl : (a : V) → value.vlt a a ≡ false
    pub lt_trans : (a b c : V) → value.vlt a b ≡ true → value.vlt b c ≡ true → value.vlt a c ≡ true
    pub lt_total : (a b : V) → value.vlt a b ≡ false → value.vlt b a ≡ false → a ≡ b
    pub lt_max : (a : V) → value.vlt double.max_d a ≡ false

  -- Adding a weight keeps the order, and leaves `max_d` as it is, which is so for every weight that is
  -- small against it.
  pub record Absorbs : Type ℓ where
    pub add_lt : (a b w : V) → value.vlt (double.add a w) (double.add b w) ≡ value.vlt a b
    pub add_max : (w : V) → double.add double.max_d w ≡ double.max_d

-- The arithmetic of real numbers, which `float` keeps up to rounding.
pub record Exact {ℓ} {V : Type ℓ} (double : Double V) : Type ℓ where
  pub add_assoc : (a b c : V) → double.add (double.add a b) c ≡ double.add a (double.add b c)
  pub add_comm : (a b : V) → double.add a b ≡ double.add b a
  pub add_zero : (a : V) → double.add a (double.literal 0 0) ≡ a
  pub mul_comm : (a b : V) → double.mul a b ≡ double.mul b a
  pub mul_add :
      (a b w : V) → double.mul (double.add a b) w ≡ double.add (double.mul a w) (double.mul b w)
  pub mul_zero : (w : V) → double.mul (double.literal 0 0) w ≡ double.literal 0 0

module _ {ℓ} {V : Type ℓ} ⦃value : Value V⦄ ⦃double : Double V⦄ where
  module _ (ordered : Ordered value double) where
    open ordered use {lt_irrefl, lt_trans, lt_total, lt_max}

    min_comm : (a b : V) → min_d a b ≡ min_d b a
    unfolding min_d
    min_comm a b = ground (arith, lt_trans a b a, lt_irrefl a, lt_total a b)

    min_assoc : (a b c : V) → min_d (min_d a b) c ≡ min_d a (min_d b c)
    unfolding min_d
    min_assoc a b c = ground (
      arith,
      lt_trans a b c,
      lt_trans c b a,
      lt_trans b c a,
      lt_trans c a b,
      lt_trans b a c,
      lt_trans a c b,
      lt_total a b,
      lt_total b c,
      lt_total a c,
      lt_irrefl a,
      lt_irrefl b,
      lt_irrefl c,
    )

    min-max : (a : V) → min_d a double.max_d ≡ a
    unfolding min_d
    min-max a = rw (lt_max a)

    min-add :
        Absorbs value double
        → (a b w : V) → double.add (min_d a b) w ≡ min_d (double.add a w) (double.add b w)
    unfolding min_d
    min-add absorbs a b w = elim (Bool-cases (value.vlt b a)) [
      | inl h ↦ rw (absorbs.add_lt b a w, h)
      | inr h ↦ rw (absorbs.add_lt b a w, h)
    ]

  module _ {K : Type ℓ} ⦃key : Key K⦄ (casts : Casts K V) (source : ℕ)
      (ordered : Ordered value double) (absorbs : Absorbs value double) where
    shortestpath-AccMonoid : AccMonoid (shortestpath casts source)
    unfolding shortestpath
    shortestpath-AccMonoid = record {
      acc_assoc = min_assoc ordered;
      acc_comm = min_comm ordered;
      acc_default = min-max ordered;
    }

    -- Over a total order under the maximum, with addition of a weight that keeps the order and the
    -- maximum, the shortest-path program is accumulative.
    pub shortestpath-Accumulative : Accumulative (shortestpath casts source)
    unfolding shortestpath sent
    shortestpath-Accumulative = record {
      monoid = shortestpath-AccMonoid;
      plain = λ k d v x. refl;
      by_delta = λ k d v x. refl;
      sent_add = λ k d e x j.
          along-add (shortestpath casts source) shortestpath-AccMonoid Link.end
            (λ a l. double.add a l.weight) j (λ a b l. min-add ordered absorbs a b l.weight) d e x;
      sent_default = λ k x j.
          along-default (shortestpath casts source) shortestpath-AccMonoid Link.end
            (λ a l. double.add a l.weight) j (λ l. absorbs.add_max l.weight) x;
    }

module _ {ℓ} {K V : Type ℓ} ⦃key : Key K⦄ ⦃double : Double V⦄ (casts : Casts K V) (n : ℕ)
    (factor : V) (exact : Exact double) where
  katz-AccMonoid : AccMonoid (katz casts n factor)
  unfolding katz
  katz-AccMonoid = record {
    acc_assoc = exact.add_assoc;
    acc_comm = exact.add_comm;
    acc_default = exact.add_zero;
  }

  adsorption-AccMonoid : AccMonoid (adsorption casts n factor)
  unfolding adsorption
  adsorption-AccMonoid = record {
    acc_assoc = exact.add_assoc;
    acc_comm = exact.add_comm;
    acc_default = exact.add_zero;
  }

  katz-Accumulative : Accumulative (katz casts n factor)
  unfolding katz sent
  katz-Accumulative = record {
    monoid = katz-AccMonoid;
    plain = λ k d v x. refl;
    by_delta = λ k d v x. refl;
    sent_add = λ k d e x j.
        along-add (katz casts n factor) katz-AccMonoid (λ l. l) (λ a l. double.mul factor a) j
          (λ a b l.
            exact.mul_comm factor _
            ∙ exact.mul_add a b factor
            ∙ ap (λ z. double.add z (double.mul b factor)) (exact.mul_comm a factor)
            ∙ ap (λ z. double.add (double.mul factor a) z) (exact.mul_comm b factor))
          d e x;
    sent_default = λ k x j.
        along-default (katz casts n factor) katz-AccMonoid (λ l. l) (λ a l. double.mul factor a) j
          (λ l. exact.mul_comm factor _ ∙ exact.mul_zero factor) x;
  }

  unfoldable damped : V → Link K V → V
  damped a l = double.mul (double.mul a factor) l.weight

  adsorption-Accumulative : Accumulative (adsorption casts n factor)
  unfolding adsorption sent damped
  adsorption-Accumulative = record {
    monoid = adsorption-AccMonoid;
    plain = λ k d v x. refl;
    by_delta = λ k d v x. refl;
    sent_add = λ k d e x j.
        along-add (adsorption casts n factor) adsorption-AccMonoid Link.end damped j
          (λ a b l.
            ap (λ z. double.mul z l.weight) (exact.mul_add a b factor)
            ∙ exact.mul_add (double.mul a factor) (double.mul b factor) l.weight)
          d e x;
    sent_default = λ k x j.
        along-default (adsorption casts n factor) adsorption-AccMonoid Link.end damped j
          (λ l. ap (λ z. double.mul z l.weight) (exact.mul_zero factor) ∙ exact.mul_zero l.weight)
          x;
  }

  -- Over exact arithmetic, the Katz program and the adsorption program are accumulative.
  pub linear-Accumulative :
      Accumulative (katz casts n factor) × Accumulative (adsorption casts n factor)
  linear-Accumulative = (katz-Accumulative, adsorption-Accumulative)
