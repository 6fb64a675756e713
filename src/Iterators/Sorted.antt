-- ===== src/Iterators/Sorted.antt =====
-- The order that `sort` by `compare_priority` (src/kernel/statetable.h) leaves the sampled buckets in.
use maiter_p.Base.{
  ℕ, zero, suc, ◌<◌, ◌≤◌, ◌≡◌, refl, sym, ap, ◌∙◌, Bool, true, false, not, List, [], ◌∷◌, ok,
  ok-injective, if◌then◌else◌, arith, length, Bool-cases, inl, inr,
}
use maiter_p.Kernel.{Value}
use maiter_p.StateTable.Defs.{Bucket, at}
use maiter_p.Iterators.Schedule.{compare_priority, insert_sorted, sort_priority}

module _ {ℓ} {V : Type ℓ} (value : Value V) where
  -- What `sort` asks of `compare_priority`: `<` is a strict weak order. Its complement is `>=`.
  pub record StrictWeak : Type ℓ where
    pub asym : (a b : V) → value.vlt a b ≡ true → value.vlt b a ≡ false
    pub cotrans :
        (a b c : V) → value.vlt a b ≡ false → value.vlt b c ≡ false → value.vlt a c ≡ false
    pub ge_is : (a b : V) → value.vge a b ≡ not (value.vlt a b)

  irrefl : StrictWeak → (p : V) → value.vlt p p ≡ false
  irrefl order p = elim (Bool-cases (value.vlt p p)) [ inl e ↦ order.asym p p e | inr e ↦ e ]

module _ {ℓ} {A : Type ℓ} where
  -- How many elements pass a test.
  unfoldable pub count_where : (A → Bool) → List A → ℕ
  count_where test [] = 0
  count_where test (a ∷ rest) =
      if test a then suc (count_where test rest) else count_where test rest

module _ {ℓ} {K V D : Type ℓ} ⦃value : Value V⦄ where
  -- Above a threshold, and not below it.
  abbrev pub above : V → Bucket K V D → Bool
  above threshold u = value.vlt threshold u.priority

  abbrev pub not_below : V → Bucket K V D → Bool
  not_below threshold u = not (value.vlt u.priority threshold)

  abbrev pub NoneAbove : V → List (Bucket K V D) → Type 0
  NoneAbove p [] = Unit {0}
  NoneAbove p (u ∷ us) = (value.vlt p u.priority ≡ false) × NoneAbove p us

  -- No priority is above that of an earlier bucket.
  abbrev pub IsDescending : List (Bucket K V D) → Type 0
  IsDescending [] = Unit {0}
  IsDescending (u ∷ us) = NoneAbove u.priority us × IsDescending us

  insert_sorted-count :
      (test : Bucket K V D → Bool) (a : Bucket K V D) (us : List (Bucket K V D))
      → count_where test (insert_sorted a us) ≡ count_where test (a ∷ us)
  unfolding count_where insert_sorted compare_priority
  insert_sorted-count test a [] = refl
  insert_sorted-count test a (u ∷ us) =
      let rest = insert_sorted-count test a us in ground (arith, rest)

  -- Sorting keeps what there is, as often.
  pub sort_priority-count :
      (test : Bucket K V D → Bool) (us : List (Bucket K V D))
      → count_where test (sort_priority us) ≡ count_where test us
  unfolding count_where sort_priority
  sort_priority-count test [] = refl
  sort_priority-count test (u ∷ us) =
      let rest = sort_priority-count test us in
      let all = insert_sorted-count test u (sort_priority us) in ground (arith, rest, all)

  insert_sorted-length :
      (a : Bucket K V D) (us : List (Bucket K V D)) → length (insert_sorted a us) ≡ suc (length us)
  unfolding insert_sorted compare_priority
  insert_sorted-length a [] = refl
  insert_sorted-length a (u ∷ us) = let rest = insert_sorted-length a us in ground (arith, rest)

  pub sort_priority-length : (us : List (Bucket K V D)) → length (sort_priority us) ≡ length us
  unfolding sort_priority
  sort_priority-length [] = refl
  sort_priority-length (u ∷ us) =
      insert_sorted-length u (sort_priority us) ∙ ap suc (sort_priority-length us)

  insert_sorted-NoneAbove :
      (p : V) (a : Bucket K V D) (us : List (Bucket K V D))
      → value.vlt p a.priority ≡ false
      → NoneAbove p us
      → NoneAbove p (insert_sorted a us)
  unfolding insert_sorted compare_priority
  insert_sorted-NoneAbove p a [] h below = (h, tt)
  insert_sorted-NoneAbove p a (u ∷ us) h (first, below) =
      elim (Bool-cases (value.vlt a.priority u.priority)) [
        | inl e ↦ rw (insert_sorted, e) (first, insert_sorted-NoneAbove p a us h below)
        | inr e ↦ rw (insert_sorted, e) (h, (first, below))
      ]

  module _ (order : StrictWeak value) where
    open order use {asym, cotrans}

    NoneAbove-le :
        (p q : V) (us : List (Bucket K V D))
        → value.vlt p q ≡ false
        → NoneAbove q us
        → NoneAbove p us
    NoneAbove-le p q [] h below = tt
    NoneAbove-le p q (u ∷ us) h (first, below) =
        (cotrans p q u.priority h first, NoneAbove-le p q us h below)

    insert_sorted-IsDescending :
        (a : Bucket K V D) (us : List (Bucket K V D))
        → IsDescending us
        → IsDescending (insert_sorted a us)
    unfolding insert_sorted compare_priority
    insert_sorted-IsDescending a [] sorted = (tt, tt)
    insert_sorted-IsDescending a (u ∷ us) (below, sorted) =
        elim (Bool-cases (value.vlt a.priority u.priority)) [
          | inl e ↦
              rw (insert_sorted, e)
                (
                  insert_sorted-NoneAbove u.priority a us (asym _ _ e) below,
                  insert_sorted-IsDescending a us sorted,
                )
          | inr e ↦
              rw (insert_sorted, e)
                ((e, NoneAbove-le a.priority u.priority us e below), (below, sorted))
        ]

    pub sort_priority-IsDescending : (us : List (Bucket K V D)) → IsDescending (sort_priority us)
    unfolding sort_priority
    sort_priority-IsDescending [] = tt
    sort_priority-IsDescending (u ∷ us) =
        insert_sorted-IsDescending u (sort_priority us) (sort_priority-IsDescending us)

    NoneAbove-at :
        (p : V) (us : List (Bucket K V D)) (i : ℕ) {u : Bucket K V D}
        → NoneAbove p us
        → at us i ≡ ok u
        → value.vlt p u.priority ≡ false
    unfolding at
    NoneAbove-at p [] i below h = absurd (cc h)
    NoneAbove-at p (v ∷ us) zero below h =
        sym (ap (λ (w : Bucket K V D). value.vlt p w.priority) (ok-injective h)) ∙ below.0
    NoneAbove-at p (v ∷ us) (suc i) below h = NoneAbove-at p us i below.1 h

    count-none : (p : V) (us : List (Bucket K V D)) → NoneAbove p us → count_where (above p) us ≡ 0
    unfolding count_where
    count-none p [] below = refl
    count-none p (u ∷ us) (first, below) = rw (count_where, first) (count-none p us below)

    -- In a sorted list as many are above an element as stand before it, or fewer.
    pub count-above-le :
        (us : List (Bucket K V D)) (i : ℕ) (cut : Bucket K V D)
        → IsDescending us
        → at us i ≡ ok cut
        → count_where (above cut.priority) us ≤ i
    unfolding count_where at
    count-above-le [] i cut sorted h = absurd (cc h)
    count-above-le (u ∷ us) zero cut (below, sorted) h =
        let same = ok-injective h in
        let self : value.vlt cut.priority u.priority ≡ false =
          ap (λ (w : Bucket K V D). value.vlt cut.priority w.priority) same
          ∙ irrefl value order cut.priority in
        let none = count-none cut.priority us (rw (sym same) below) in
        rw (count_where, self, none) (omega arith)
    count-above-le (u ∷ us) (suc i) cut (below, sorted) h =
        let rest = count-above-le us i cut sorted h in ground (arith, rest)

    -- And more than stand before it are not below it.
    pub count-not_below :
        (us : List (Bucket K V D)) (i : ℕ) (cut : Bucket K V D)
        → IsDescending us
        → at us i ≡ ok cut
        → i < count_where (not_below cut.priority) us
    unfolding count_where at
    count-not_below [] i cut sorted h = absurd (cc h)
    count-not_below (u ∷ us) zero cut (below, sorted) h =
        let self : value.vlt u.priority cut.priority ≡ false =
          ap (λ (w : Bucket K V D). value.vlt w.priority cut.priority) (ok-injective h)
          ∙ irrefl value order cut.priority in
        rw (count_where, self) (omega arith)
    count-not_below (u ∷ us) (suc i) cut (below, sorted) h =
        let self = NoneAbove-at u.priority us i below h in
        let rest = count-not_below us i cut sorted h in rw (count_where, self) (omega (arith, rest))
