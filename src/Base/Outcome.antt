-- ===== src/Base/Outcome.antt =====
-- Runs that may end abnormally, in the ways that the program can.
use mathlib.Core.Path.{◌≡◌, refl, sym, ap, ◌∙◌, subst}

-- `log_fatal` is the exception that a LOG_FATAL line ended by `std::endl` throws, `bad_cast` that of
-- `boost::lexical_cast`, `assertion` a failed assert, `out_of_range` an index outside a vector or a
-- value outside `int`, `uninitialized` a variable read before it is set, `blocked` a mutex that is held,
-- `bad_free` a `delete` of what is not allocated, `out_of_fuel` a loop of the model cut short.
pub data Fault : Type 0 where
  log_fatal bad_cast assertion out_of_range division_by_zero uninitialized blocked bad_free
        out_of_fuel :
      Fault

module _ {ℓ} (Result : Type ℓ) where
  pub data Run : Type ℓ where
    ok : Result → Run
    fault : Fault → Run

module _ {ℓ κ} {X : Type ℓ} where
  -- The run ends normally, in a value that satisfies `P`.
  abbrev pub Returns : Run X → (X → Type κ) → Type (ℓ ⊔ κ)
  Returns run P = (x : X) × (run ≡ ok x) × P x

  infixl 5 ◌>>=◌
  abbrev pub ◌>>=◌ : {Y : Type κ} → Run X → (X → Run Y) → Run Y
  fault e >>= next = fault e
  ok x >>= next = next x

pub >>=-Returns {ℓ κ μ} :
    {A B : Type ℓ} {P : A → Type κ} {Q : B → Type μ} (r : Run A) (f : A → Run B)
    → Returns r P
    → ((a : A) → P a → Returns (f a) Q)
    → Returns (r >>= f) Q
>>=-Returns r f (a, run, p) next = rw run (next a p)

-- Inversion of a run that ends.
pub >>=-eq-ok {ℓ κ} :
    {A : Type ℓ} {B : Type κ} (r : Run A) (f : A → Run B) {b : B}
    → (r >>= f) ≡ ok b
    → (a : A) × (r ≡ ok a) × (f a ≡ ok b)
>>=-eq-ok (ok a) f h = (a, refl, h)
>>=-eq-ok (fault e) f h = absurd (cc h)

unfoldable ok_or {ℓ} : {A : Type ℓ} → A → Run A → A
ok_or d (ok a) = a
ok_or d (fault e) = d

pub ok-injective {ℓ} : {A : Type ℓ} {a b : A} → ok a ≡ ok b → a ≡ b
unfolding ok_or
ok-injective {a = a} h = ap (ok_or a) h

-- A run has one result.
pub Returns-unique {ℓ κ} :
    {A : Type ℓ} (P : A → Type κ) {r : Run A} {a : A} → Returns r P → r ≡ ok a → P a
unfolding ok_or
Returns-unique P {a = a} (b, run, p) run' = subst P (ap (ok_or a) (sym run ∙ run')) p
