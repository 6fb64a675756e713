-- ===== src/Accumulation.antt =====
-- What delta-based accumulative iteration asks of the methods of `IterateKernel` (src/kernel/table.h),
-- and the sums that the argument for it is about.
use maiter_p.Base.{
  ℕ, zero, suc, ◌<◌, ◌≡◌, refl, sym, ap, ◌∙◌, true, List, [], ◌∷◌, ◌++◌, arith, length, get_or, set,
  map, if◌then◌else◌, Bool-cases, inl, inr,
}
use maiter_p.Kernel.{Key, IterateKernel}
use maiter_p.StateTable.Defs.{Bucket}

module _ {ℓ} {K V D : Type ℓ} ⦃key : Key K⦄ (kernel : IterateKernel K V D) where
  infixl 65 ◌⊕◌
  abbrev pub ◌⊕◌ : V → V → V
  a ⊕ b = kernel.accumulate a b

  -- All that the messages `out` bring to the key `j`.
  unfoldable pub mail : List (K × V) → K → V
  mail [] j = kernel.default_v
  mail ((i, a) ∷ out) j = if key.beq i j then a ⊕ mail out j else mail out j

  -- All that `g_func` sends from `k` to `j` for the delta `d`.
  unfoldable pub sent : K → V → D → K → V
  unfolding mail
  sent k d x j = mail (kernel.g_func k d kernel.default_v x) j

  -- All that the vertices have sent to `j` if each has spread its whole value.
  unfoldable pub spread : List (Bucket K V D) → K → V
  unfolding sent
  spread [] j = kernel.default_v
  spread (u ∷ us) j = if u.in_use then sent u.k u.v2 u.v3 j ⊕ spread us j else spread us j

  -- `accumulate` makes a commutative monoid with `default_v`.
  pub record AccMonoid : Type ℓ where
    pub acc_assoc : (a b c : V) → (a ⊕ b) ⊕ c ≡ a ⊕ (b ⊕ c)
    pub acc_comm : (a b : V) → a ⊕ b ≡ b ⊕ a
    pub acc_default : (a : V) → a ⊕ kernel.default_v ≡ a

  -- Moreover `process_delta_v` is the default one, and the messages depend on the delta alone and
  -- distribute over `accumulate`.
  pub record Accumulative : Type ℓ where
    pub monoid : AccMonoid
    pub plain : (k : K) (d v : V) (x : D) → kernel.process_delta_v k d v x ≡ (d, v, x)
    pub by_delta :
        (k : K) (d v : V) (x : D) → kernel.g_func k d v x ≡ kernel.g_func k d kernel.default_v x
    pub sent_add :
        (k : K) (d e : V) (x : D) (j : K) → sent k (d ⊕ e) x j ≡ sent k d x j ⊕ sent k e x j
    pub sent_default : (k : K) (x : D) (j : K) → sent k kernel.default_v x j ≡ kernel.default_v

  module _ (monoid : AccMonoid) where
    open monoid use {acc_assoc, acc_comm, acc_default}

    pub acc_swap : (a b c : V) → (a ⊕ b) ⊕ c ≡ (a ⊕ c) ⊕ b
    acc_swap a b c = acc_assoc a b c ∙ ap (λ x. a ⊕ x) (acc_comm b c) ∙ sym (acc_assoc a c b)

    acc_exchange : (a b c d : V) → (a ⊕ b) ⊕ (c ⊕ d) ≡ (a ⊕ c) ⊕ (b ⊕ d)
    acc_exchange a b c d =
        sym (acc_assoc (a ⊕ b) c d) ∙ ap (λ x. x ⊕ d) (acc_swap a b c) ∙ acc_assoc (a ⊕ c) b d

    pub default_acc : (a : V) → kernel.default_v ⊕ a ≡ a
    default_acc a = acc_comm _ a ∙ acc_default a

    pub mail-append : (xs ys : List (K × V)) (j : K) → mail (xs ++ ys) j ≡ mail xs j ⊕ mail ys j
    unfolding mail
    mail-append [] ys j = sym (default_acc _)
    mail-append ((i, a) ∷ xs) ys j = elim (Bool-cases (key.beq i j)) [
      | inl e ↦ rw (e, mail-append xs ys j) (sym (acc_assoc a _ _))
      | inr e ↦ rw (e, mail-append xs ys j)
    ]

    -- Messages over the links `xs`, each made from the delta by `f`, distribute over `accumulate` where
    -- `f` does.
    module _ {κ} {L : Type κ} (target : L → K) (f : V → L → V) (j : K) where
      abbrev pub along : V → List L → V
      along d xs = mail (map (λ l. (target l, f d l)) xs) j

      pub along-add :
          ((d e : V) (l : L) → f (d ⊕ e) l ≡ f d l ⊕ f e l)
          → (d e : V) (xs : List L) → along (d ⊕ e) xs ≡ along d xs ⊕ along e xs
      unfolding mail
      along-add add d e [] = sym (acc_default _)
      along-add add d e (x ∷ xs) = elim (Bool-cases (key.beq (target x) j)) [
        | inl h ↦ rw (h, add d e x, along-add add d e xs) (acc_exchange _ _ _ _)
        | inr h ↦ rw (h, along-add add d e xs)
      ]

      pub along-default :
          ((l : L) → f kernel.default_v l ≡ kernel.default_v)
          → (xs : List L) → along kernel.default_v xs ≡ kernel.default_v
      unfolding mail
      along-default none_sent [] = refl
      along-default none_sent (x ∷ xs) = elim (Bool-cases (key.beq (target x) j)) [
        | inl h ↦ rw (h, none_sent x, along-default none_sent xs) (acc_default _)
        | inr h ↦ rw (h, along-default none_sent xs)
      ]

  module _ (laws : Accumulative) where
    open laws use {sent_add, sent_default}
    open laws.monoid use {acc_assoc, acc_default}

    -- A bucket in use whose value grows by `d` spreads that much more.
    pub spread-grow :
        (us : List (Bucket K V D)) (b : ℕ) (o u : Bucket K V D) (d : V) (j : K)
        → b < length us
        → (get_or us b o).in_use ≡ true
        → u.in_use ≡ true
        → u.k ≡ (get_or us b o).k
        → u.v3 ≡ (get_or us b o).v3
        → u.v2 ≡ (get_or us b o).v2 ⊕ d
        → spread (set us b u) j ≡ spread us j ⊕ sent u.k d u.v3 j
    unfolding spread get_or
    spread-grow [] b o u d j h ix iu ik i3 i2 = absurd (omega arith)
    spread-grow (x ∷ us) zero o u d j h ix iu ik i3 i2 =
        rw (ix, iu, ← ik, ← i3, i2, sent_add u.k x.v2 d u.v3 j) (acc_swap laws.monoid _ _ _)
    spread-grow (x ∷ us) (suc b) o u d j h ix iu ik i3 i2 =
        let rest = spread-grow us b o u d j (omega arith) ix iu ik i3 i2 in
        elim (Bool-cases x.in_use) [
          | inl e ↦ rw (e, rest) (sym (acc_assoc _ _ _))
          | inr e ↦ rw (e, rest)
        ]

    -- Buckets that agree in all but the delta and the priority spread the same.
    pub spread-same :
        (us : List (Bucket K V D)) (b : ℕ) (o u : Bucket K V D) (j : K)
        → u.in_use ≡ (get_or us b o).in_use
        → u.k ≡ (get_or us b o).k
        → u.v3 ≡ (get_or us b o).v3
        → u.v2 ≡ (get_or us b o).v2
        → spread (set us b u) j ≡ spread us j
    unfolding spread get_or
    spread-same [] b o u j iu ik i3 i2 = refl
    spread-same (x ∷ us) zero o u j iu ik i3 i2 = rw (iu, ik, i3, i2)
    spread-same (x ∷ us) (suc b) o u j iu ik i3 i2 = rw (spread-same us b o u j iu ik i3 i2)

    -- Vertices whose values are the default have spread nothing.
    pub spread-default :
        (us : List (Bucket K V D)) (o : Bucket K V D) (j : K)
        → ((i : ℕ)
            → i < length us
            → (get_or us i o).in_use ≡ true
            → (get_or us i o).v2 ≡ kernel.default_v)
        → spread us j ≡ kernel.default_v
    unfolding spread get_or
    spread-default [] o j fresh = refl
    spread-default (u ∷ us) o j fresh =
        let rest = spread-default us o j (λ i h. fresh (suc i) (omega arith)) in
        elim (Bool-cases u.in_use) [
          | inl e ↦ rw (e, fresh 0 (omega arith) e, sent_default u.k u.v3 j, rest) (acc_default _)
          | inr e ↦ rw (e, rest)
        ]
