-- ===== src/Util/Registry/Runs.antt =====
-- What is registered under a name, and what runs, in src/util/static-initializers.h and
-- src/util/static-initializers.cc.
use maiter_p.Base.{
  ℕ, ◌≡◌, refl, ap, sym, ◌∙◌, Bool, true, false, Option, none, some, List, [], ◌∷◌, Run, ok, fault,
  uninitialized, if◌then◌else◌, Bool-cases, inl, inr, ◌⊎◌,
}
use maiter_p.Util.Config.{same}
use maiter_p.Util.Stats.Merge.{same-eq, same_self, same_apart}
use maiter_p.Util.Registry.{Registry, precedes, put, find, get, run_all}

module _ {ℓ} {T : Type ℓ} where
  hit_found :
      (hit : Bool) (t t' : Option T) (rest : Option (Option T))
      → (if hit then some t else rest) ≡ (if hit then some t else (if hit then some t' else rest))
  hit_found true t t' rest = refl
  hit_found false t t' rest = refl

  -- `put` changes what is found under its name alone.
  pub find-put :
      (m : Registry T) (k : List ℕ) (t : Option T) (q : List ℕ)
      → find (put m k t) q ≡ (if same q k then some t else find m q)
  unfolding find put
  find-put [] k t q = refl
  find-put ((k', t') ∷ m) k t q = elim (Bool-cases (same k k')) [
    | inl is ↦ rw (is, same-eq k k' is) (hit_found (same q k') t t' (find m q))
    | inr apart ↦ elim (Bool-cases (precedes k k')) [
      | inl before ↦ rw (apart, before) refl
      | inr behind ↦ elim (Bool-cases (same q k')) [
        | inl here ↦ rw (apart, behind, here, same_apart q k k' apart here) refl
        | inr away ↦ rw (apart, behind, away) (find-put m k t q)
      ]
    ]
  ]

module _ {ℓ κ} {T : Type ℓ} {S : Type κ} (run : T → S → Run S)
    (total : (t : T) (s : S) → (s' : S) × (run t s ≡ ok s')) where
  -- A name that was asked for and never registered ends the run of all helpers in a null pointer.
  pub run_all-missing :
      (m : Registry T) (k : List ℕ) (s : S)
      → find m k ≡ some none
      → run_all run m s ≡ fault uninitialized
  unfolding find run_all
  run_all-missing [] k s missing = absurd (cc missing)
  run_all-missing ((k', none) ∷ m) k s missing = refl
  run_all-missing ((k', some t) ∷ m) k s missing =
      let (s', ran) = total t s in
      rw (ran, run_all) (run_all-missing m k s' (later (Bool-cases (same k k')) missing))
    where
      later :
          (same k k' ≡ true) ⊎ (same k k' ≡ false)
          → find ((k', some t) ∷ m) k ≡ some none
          → find m k ≡ some none
      later (inl is) h = absurd cc
      later (inr apart) h = sym (ap (λ b. if b then some (some t) else find m k) apart) ∙ h

  -- A helper that was asked for and never registered is a null pointer, and the run of all helpers ends in
  -- it.
  pub get-missing :
      (m : Registry T) (k : List ℕ) (s : S)
      → find m k ≡ none
      → run_all run (get m k).0 s ≡ fault uninitialized
  unfolding get
  get-missing m k s unknown =
      rw (unknown, get)
        (run_all-missing (put m k none) k s (find-put m k none k ∙ rw (same_self k) refl))
