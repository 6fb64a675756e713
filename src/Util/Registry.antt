-- ===== src/Util/Registry.antt =====
-- `Registry` of src/util/static-initializers.h, a map from names to helpers, and the functions of
-- src/util/static-initializers.cc that run them. A `std::map` is the list of its entries in order; `none`
-- is a null pointer.
use maiter_p.Base.{
  ℕ, Bool, true, false, Option, none, some, List, [], ◌∷◌, Run, ok, fault, uninitialized, ◌>>=◌,
  ltb, ◌==◌, if◌then◌else◌,
}
use maiter_p.Util.Config.{same}
pub mod Runs

-- The order of strings.
unfoldable pub precedes : List ℕ → List ℕ → Bool
precedes a [] = false
precedes [] (d ∷ b) = true
precedes (c ∷ a) (d ∷ b) = if ltb c d then true else if c == d then precedes a b else false

abbrev pub Registry {ℓ} : Type ℓ → Type ℓ
Registry T = List (List ℕ × Option T)

module _ {ℓ} {T : Type ℓ} where
  -- `get_map()[k] = t`
  unfoldable pub put : Registry T → List ℕ → Option T → Registry T
  unfolding same precedes
  put [] k t = (k, t) ∷ []
  put ((k', t') ∷ m) k t =
      let later = put m k t in
      if same k k'
      then (k', t) ∷ m
      else if precedes k k'
      then (k, t) ∷ (k', t') ∷ m
      else (k', t') ∷ later

  unfoldable pub find : Registry T → List ℕ → Option (Option T)
  unfolding same
  find [] k = none
  find ((k', t) ∷ m) k = if same k k' then some t else find m k

  -- `get_map()[k]`, which puts a null pointer under a new name.
  unfoldable pub get : Registry T → List ℕ → Registry T × Option T
  unfolding put find
  get m k = elim (find m k) [ none ↦ (put m k none, none) | some t ↦ (m, t) ]

module _ {ℓ κ} {T : Type ℓ} {S : Type κ} (run : T → S → Run S) where
  -- `RunInitializers` and `RunTests`: a null pointer cannot be called.
  unfoldable pub run_all : Registry T → S → Run S
  run_all [] s = ok s
  run_all ((k, none) ∷ m) s = fault uninitialized
  run_all ((k, some t) ∷ m) s = do s' ← run t s; run_all m s'
