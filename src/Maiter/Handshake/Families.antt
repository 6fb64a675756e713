-- ===== src/Maiter/Handshake/Families.antt =====
-- Families of workers: how many of the first `n` satisfy a test, and a search among them.
use maiter_p.Base.{
  ℕ, zero, suc, ◌+◌, ◌*◌, ◌≤◌, ◌<◌, ◌≡◌, refl, Bool, true, false, ◌==◌, arith, ◌⊎◌, inl, inr,
  Bool-cases,
}
use maiter_p.Maiter.Handshake.{change}

abbrev pub bit : Bool → ℕ
bit true = 1
bit false = 0

module _ {ℓ} {A : Type ℓ} (weight : A → ℕ) where
  unfoldable pub total : ℕ → (ℕ → A) → ℕ
  total zero f = 0
  total (suc n) f = total n f + weight (f n)

  total-change_past :
      (n : ℕ) (f : ℕ → A) (i : ℕ) (a : A) → n ≤ i → total n (change f i a) ≡ total n f
  unfolding total
  total-change_past zero f i a h = refl
  total-change_past (suc n) f i a h = ground (arith, total-change_past n f i a)

  pub total-change :
      (n : ℕ) (f : ℕ → A) (i : ℕ) (a : A)
      → i < n
      → total n (change f i a) + weight (f i) ≡ total n f + weight a
  unfolding total
  total-change zero f i a h = absurd (omega arith)
  total-change (suc n) f i a h = elim (Bool-cases (n == i)) [
    | inl last ↦ ground (arith, total-change_past n f i a)
    | inr before ↦ ground (arith, total-change n f i a)
  ]

  pub total-le :
      (most : ℕ) → ((a : A) → weight a ≤ most) → (n : ℕ) (f : ℕ → A) → total n f ≤ n * most
  unfolding total
  total-le most small zero f = omega arith
  total-le most small (suc n) f = grind (arith, small (f n), total-le most small n f)

  -- A change of all members that makes each heavier by at most `most`, or lighter.
  pub total-heavier :
      (most : ℕ) (f g : ℕ → A)
      → ((i : ℕ) → weight (g i) ≤ weight (f i) + most)
      → (n : ℕ) → total n g ≤ total n f + n * most
  unfolding total
  total-heavier most f g more zero = omega arith
  total-heavier most f g more (suc n) = grind (arith, more n, total-heavier most f g more n)

  pub total-lighter :
      (f g : ℕ → A) (n : ℕ)
      → ((i : ℕ) → i < n → weight (g i) < weight (f i))
      → total n g + n ≤ total n f
  unfolding total
  total-lighter f g zero less = omega arith
  total-lighter f g (suc n) less =
      omega (arith, less n (omega arith), total-lighter f g n (λ i lt. less i (omega arith)))

module _ {ℓ} {A : Type ℓ} (p : A → Bool) where
  unfoldable pub tally : ℕ → (ℕ → A) → ℕ
  unfolding total
  tally n f = total (λ a. bit (p a)) n f

  pub tally-change :
      (n : ℕ) (f : ℕ → A) (i : ℕ) (a : A)
      → i < n
      → tally n (change f i a) + bit (p (f i)) ≡ tally n f + bit (p a)
  unfolding tally
  tally-change n f i a h = total-change (λ x. bit (p x)) n f i a h

  pub tally-all : (n : ℕ) (f : ℕ → A) → ((i : ℕ) → i < n → p (f i) ≡ true) → tally n f ≡ n
  unfolding tally
  tally-all zero f h = refl
  tally-all (suc n) f h = ground (arith, h n, tally-all n f (λ i lt. h i (omega arith)))

  pub tally-none : (n : ℕ) (f : ℕ → A) → ((i : ℕ) → i < n → p (f i) ≡ false) → tally n f ≡ 0
  unfolding tally
  tally-none zero f h = refl
  tally-none (suc n) f h = ground (arith, h n, tally-none n f (λ i lt. h i (omega arith)))

  pub tally-le : (n : ℕ) (f : ℕ → A) → tally n f ≤ n
  unfolding tally
  tally-le zero f = omega arith
  tally-le (suc n) f = ground (arith, tally-le n f)

  pub tally-full : (n : ℕ) (f : ℕ → A) → n ≤ tally n f → (i : ℕ) → i < n → p (f i) ≡ true
  unfolding tally
  tally-full zero f h i lt = absurd (omega arith)
  tally-full (suc n) f h i lt = elim (Bool-cases (i == n)) [
    | inl last ↦ ground (arith, tally-le n f)
    | inr before ↦ ground (arith, tally-le n f, tally-full n f (ground (arith, tally-le n f)) i)
  ]

  -- All of the first `n` pass the test, or one of them does not.
  pub all_or_one :
      (n : ℕ) (f : ℕ → A)
      → ((i : ℕ) → i < n → p (f i) ≡ true) ⊎ ((i : ℕ) × (i < n) × (p (f i) ≡ false))
  all_or_one zero f = inl (λ i lt. absurd (omega arith))
  all_or_one (suc n) f = elim (Bool-cases (p (f n))) [
    | inr fails ↦ inr (n, omega arith, fails)
    | inl passes ↦ elim (all_or_one n f) [
      | inr (i, lt, fails) ↦ inr (i, omega arith, fails)
      | inl all ↦ inl (λ i lt. elim (Bool-cases (i == n)) [
        | inl last ↦ ground (arith, passes)
        | inr before ↦ all i (ground arith)
      ])
    ]
  ]
