-- ===== src/Iterators/Visits.antt =====
-- A pass of `EntirePassIterator` (src/kernel/statetable.h) gives its body every bucket in use once, in
-- the order of the buckets.
use maiter_p.Base.{
  ℕ, zero, suc, ◌+◌, ◌<◌, ◌≤◌, ◌-◌, ◌≡◌, refl, ap, sym, ◌∙◌, true, false, List, [], ◌∷◌, ok, ltb,
  ◌==◌, if◌then◌else◌, arith, length, get_or, inl, inr, Bool-cases, lt→ltb, le→ltb, ne→==, ==_iff,
}
use maiter_p.Kernel.{Key, Value, IterateKernel}
use maiter_p.StateTable.Defs.{StateTable, Bucket, at}
use maiter_p.StateTable.Put.{blank}
use maiter_p.StateTable.Probe.{slot, at-get_or}
use maiter_p.Iterators.Pass.{advance, next, done, entire_pass, entirepass_iterator}

module _ {ℓ κ} {K V D : Type ℓ} {A : Type κ} (body : A → Bucket K V D → A) where
  abbrev pub step : A → Bucket K V D → A
  step a u = if u.in_use then body a u else a

  -- The body on every bucket in use.
  unfoldable pub visited : List (Bucket K V D) → A → A
  visited [] a = a
  visited (u ∷ us) a = visited us (step a u)

  -- The same on the buckets `s p`, ..., `s (p + n - 1)`.
  unfoldable visited_from : (ℕ → Bucket K V D) → ℕ → ℕ → A → A
  visited_from s zero p a = a
  visited_from s (suc n) p a = visited_from s n (suc p) (step a (s p))

  shifted :
      (s s' : ℕ → Bucket K V D) (n p : ℕ) (a : A)
      → ((i : ℕ) → s' i ≡ s (suc i))
      → visited_from s n (suc p) a ≡ visited_from s' n p a
  unfolding visited_from
  shifted s s' zero p a e = refl
  shifted s s' (suc n) p a e =
      ap (λ u. visited_from s n (suc (suc p)) (step a u)) (sym (e p))
      ∙ shifted s s' n (suc p) (step a (s' p)) e

  visited_from-all :
      (us : List (Bucket K V D)) (o : Bucket K V D) (a : A)
      → visited_from (λ i. get_or us i o) (length us) 0 a ≡ visited us a
  unfolding visited visited_from get_or
  visited_from-all [] o a = refl
  visited_from-all (u ∷ us) o a =
      shifted (λ i. get_or (u ∷ us) i o) (λ i. get_or us i o) (length us) 0 (step a u) (λ i. refl)
      ∙ visited_from-all us o (step a u)

module _ {ℓ} {K V D : Type ℓ} where
  unfoldable first_used : (ℕ → Bucket K V D) → ℕ → ℕ → ℕ
  first_used s zero p = p
  first_used s (suc n) p = if (s p).in_use then p else first_used s n (suc p)

module _ {ℓ κ} {K V D : Type ℓ} {A : Type κ} (body : A → Bucket K V D → A)
    (s : ℕ → Bucket K V D) where
  -- What a call of `Next` skips to from position `p`, with `n` buckets left.
  data Skips (n p : ℕ) (a : A) : Type κ where
    at_used :
        (m q : ℕ)
        → q + suc m ≡ p + n
        → p ≤ q
        → (s q).in_use ≡ true
        → first_used s n p ≡ q
        → visited_from body s n p a ≡ visited_from body s m (suc q) (body a (s q))
        → Skips n p a
    at_end : first_used s n p ≡ p + n → visited_from body s n p a ≡ a → Skips n p a

  Skips-further : (n p : ℕ) (a : A) → (s p).in_use ≡ false → Skips n (suc p) a → Skips (suc n) p a
  unfolding first_used visited_from
  Skips-further n p a h (at_used m q e le used f v) =
      at_used m q (omega arith) (omega arith) used
        (ap (λ b. if b then p else first_used s n (suc p)) h ∙ f)
        (ap (λ b. visited_from body s n (suc p) (if b then body a (s p) else a)) h ∙ v)
  Skips-further n p a h (at_end f v) =
      at_end (ap (λ b. if b then p else first_used s n (suc p)) h ∙ f ∙ omega arith)
        (ap (λ b. visited_from body s n (suc p) (if b then body a (s p) else a)) h ∙ v)

  skips : (n p : ℕ) (a : A) → Skips n p a
  unfolding first_used visited_from
  skips zero p a = at_end (omega arith) refl
  skips (suc n) p a = elim (Bool-cases (s p).in_use) [
    | inl h ↦
        at_used n p (omega arith) (omega arith) h
          (ap (λ b. if b then p else first_used s n (suc p)) h)
          (ap (λ b. visited_from body s n (suc p) (if b then body a (s p) else a)) h)
    | inr h ↦ Skips-further n p a h (skips n (suc p) a)
  ]

module _ {ℓ} {K V D : Type ℓ} ⦃key : Key K⦄ ⦃value : Value V⦄ ⦃kernel : IterateKernel K V D⦄
    (t : StateTable K V D) (width : length t.buckets ≡ t.size) where
  at-here : (p : ℕ) → p < t.size → at t.buckets p ≡ ok (slot t p)
  at-here p h = at-get_or t.buckets p blank (rw width h)

  advance-first_used :
      (f n p : ℕ) → p + n ≡ t.size → n < f → advance f t p ≡ ok (first_used (slot t) n p)
  unfolding advance first_used
  advance-first_used zero n p e h = absurd (omega arith)
  advance-first_used (suc f) zero p e h = rw (advance, le→ltb p t.size (omega arith))
  advance-first_used (suc f) (suc n) p e h =
      let rest = advance-first_used f n (suc p) (omega arith) (omega arith) in
      elim (Bool-cases (slot t p).in_use) [
        | inl used ↦ rw (advance, lt→ltb p t.size (omega arith), at-here p (omega arith), used)
        | inr free ↦ rw (advance, lt→ltb p t.size (omega arith), at-here p (omega arith), free) rest
      ]

  next-first_used :
      (n p total : ℕ)
      → p + n ≡ t.size
      → next t (record { next_pos = p; total = total })
        ≡ ok (
          record { next_pos = suc (first_used (slot t) n p); total = total + 1 },
          ltb (first_used (slot t) n p) t.size,
        )
  unfolding next
  next-first_used n p total e = rw (advance-first_used (suc t.size) n p e (omega arith))

  module _ {κ} {A : Type κ} (body : A → Bucket K V D → A) where
    abbrev PassesFrom : ℕ → Type κ
    PassesFrom f =
        (n p total : ℕ) (a : A)
        → p + n ≡ t.size
        → n < f
        → entire_pass body f t (record { next_pos = p; total = total }) a
          ≡ ok (visited_from body (slot t) n p a)

    pass-Skips :
        (f n p total : ℕ) (a : A)
        → PassesFrom f
        → p + n ≡ t.size
        → n < suc f
        → Skips body (slot t) n p a
        → (p == t.size) ≡ false
        → entire_pass body (suc f) t (record { next_pos = p; total = total }) a
          ≡ ok (visited_from body (slot t) n p a)
    unfolding entire_pass done
    pass-Skips f n p total a further e h (at_used m q eq le used there v) more =
        let rest = further m (suc q) (total + 1) (body a (slot t q)) (omega arith) (omega arith) in
        let here : at t.buckets (suc q - 1) ≡ ok (slot t q) =
          ap (at t.buckets) (omega arith) ∙ at-here q (omega arith) in
        rw
          (
            entire_pass,
            more,
            next-first_used n p total e,
            there,
            lt→ltb q t.size (omega arith),
            here,
            v,
          )
          rest
    pass-Skips f n p total a further e h (at_end there v) more = rw (
      entire_pass,
      more,
      next-first_used n p total e,
      there,
      le→ltb (p + n) t.size (omega arith),
      v,
    )

    pass_from : (f : ℕ) → PassesFrom f
    unfolding entire_pass done visited_from
    pass_from zero n p total a e h = absurd (omega arith)
    pass_from (suc f) zero p total a e h = rw (entire_pass, (==_iff p t.size).1 (omega arith))
    pass_from (suc f) (suc n) p total a e h =
        pass-Skips f (suc n) p total a (pass_from f) e h (skips body (slot t) (suc n) p a)
          (ne→== p t.size (λ q. absurd (omega arith)))

    -- On a table as wide as its size, the loop over an EntirePassIterator ends, and its body was given
    -- each bucket in use once, in order.
    pub entire_pass-visited :
        (a : A)
        → entire_pass body (suc t.size) t entirepass_iterator a ≡ ok (visited body t.buckets a)
    unfolding entirepass_iterator
    entire_pass-visited a =
        pass_from (suc t.size) t.size 0 0 a (omega arith) (omega arith)
        ∙ ap (λ n. ok (visited_from body (slot t) n 0 a)) (sym width)
        ∙ ap ok (visited_from-all body t.buckets blank a)
