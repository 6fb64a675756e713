-- ===== src/Util/Stats/Merge.antt =====
-- What `Merge` of `Stats` in src/util/common.h adds up.
use mathlib.Core.Path.{ap₂}
use maiter_p.Base.{
  ℕ, ◌≡◌, refl, ap, sym, ◌∙◌, Bool, true, false, List, [], ◌∷◌, if◌then◌else◌, Bool-cases, inl, inr,
  ◌==◌, ==_iff, ==_self, And-true,
}
use maiter_p.Util.Config.{same}
use maiter_p.Util.Stats.{Sums, Stats, add_at, merge}

pub same-eq : (a b : List ℕ) → same a b ≡ true → a ≡ b
unfolding same
same-eq [] [] h = refl
same-eq [] (d ∷ b) h = absurd (cc h)
same-eq (c ∷ a) [] h = absurd (cc h)
same-eq (c ∷ a) (d ∷ b) h =
    let (first, later) = And-true (c == d) (same a b) h in
    ap₂ (λ x xs. x ∷ xs) ((==_iff c d).0 first) (same-eq a b later)

pub same_self : (a : List ℕ) → same a a ≡ true
unfolding same
same_self [] = refl
same_self (c ∷ a) = rw (==_self c) (same_self a)

-- Names that differ are not both the same as a third.
pub same_apart : (key a b : List ℕ) → same a b ≡ false → same key b ≡ true → same key a ≡ false
same_apart key a b apart is = elim (Bool-cases (same key a)) [
  | inl also ↦
      let e : a ≡ b = sym (same-eq key a also) ∙ same-eq key b is in
      absurd (cc (apart, ap (λ x. same a x) e, same_self a))
  | inr h ↦ h
]

module _ {ℓ} {R : Type ℓ} ⦃sums : Sums R⦄ where
  -- The value under a key, 0 where there is none.
  pub value_of : Stats R → List ℕ → R
  value_of [] key = sums.zero_r
  value_of ((k, v) ∷ p) key = if same key k then v else value_of p key

  -- No key stands twice.
  pub has_key : Stats R → List ℕ → Bool
  has_key [] key = false
  has_key ((k, v) ∷ p) key = if same key k then true else has_key p key

  pub AreDistinct : Stats R → Type 0
  AreDistinct [] = Unit
  AreDistinct ((k, v) ∷ p) = (has_key p k ≡ false) × AreDistinct p

  at_hit :
      (hit : Bool) (w v rest : R)
      → (if hit then sums.plus w v else rest)
        ≡ (if hit then sums.plus (if hit then w else rest) v else (if hit then w else rest))
  at_hit true w v rest = refl
  at_hit false w v rest = refl

  value_of-add_at :
      (p : Stats R) (k : List ℕ) (v : R) (key : List ℕ)
      → value_of (add_at p k v) key
        ≡ (if same key k then sums.plus (value_of p key) v else value_of p key)
  unfolding value_of add_at
  value_of-add_at [] k v key = refl
  value_of-add_at ((k', w) ∷ p) k v key = elim (Bool-cases (same k k')) [
    | inl is ↦ rw (is, same-eq k k' is) (at_hit (same key k') w v (value_of p key))
    | inr apart ↦ elim (Bool-cases (same key k')) [
      | inl here ↦ rw (apart, here, same_apart key k k' apart here) refl
      | inr away ↦ rw (apart, away) (value_of-add_at p k v key)
    ]
  ]

  value_of-fresh : (p : Stats R) (k : List ℕ) → has_key p k ≡ false → value_of p k ≡ sums.zero_r
  unfolding value_of has_key
  value_of-fresh [] k fresh = refl
  value_of-fresh ((k', v) ∷ p) k fresh = elim (Bool-cases (same k k')) [
    | inl is ↦ absurd cc
    | inr apart ↦
        let later : has_key p k ≡ false =
          sym (ap (λ b. if b then true else has_key p k) apart) ∙ fresh in
        rw apart (value_of-fresh p k later)
  ]

  -- Where adding 0 changes nothing, each key has after `Merge` the sum of its two values.
  pub value_of-merge :
      ((a : R) → sums.plus a sums.zero_r ≡ a)
      → (other p : Stats R) (key : List ℕ) → AreDistinct other
      → value_of (merge p other) key ≡ sums.plus (value_of p key) (value_of other key)
  unfolding merge value_of AreDistinct
  value_of-merge zero_law [] p key distinct = sym (zero_law _)
  value_of-merge zero_law ((k, v) ∷ other) p key (fresh, distinct) =
      value_of-merge zero_law other (add_at p k v) key distinct ∙ elim (Bool-cases (same key k)) [
        | inl is ↦
            let gone : value_of other key ≡ sums.zero_r =
              value_of-fresh other key (ap (has_key other) (same-eq key k is) ∙ fresh) in
            rw (value_of-add_at p k v key, is, gone) (zero_law _)
        | inr apart ↦ rw (value_of-add_at p k v key, apart) refl
      ]
