-- ===== src/StateTable/Latest.antt =====
-- What a sequence of writes of the rows of a vector of buckets leaves behind, and that it is the map
-- that the vector stands for.
use maiter_p.Base.{
  ℕ, zero, suc, ◌<◌, ◌≡◌, refl, true, Option, none, some, List, [], ◌∷◌, arith, length, get_or,
  if◌then◌else◌, ◌&&◌, Bool-cases, inl, inr, sym, ap, ◌∙◌, And-true, ◌≢◌,
}
use maiter_p.Kernel.{Key, Value, IterateKernel}
use maiter_p.StateTable.Defs.{StateTable, Bucket}
use maiter_p.StateTable.Put.{blank}
use maiter_p.StateTable.Probe.{Found, hit, slot, probe}
use maiter_p.StateTable.Invariant.{Row, row, WellFormed, view, row_at, probe-hit, probe-hit_iff}

module _ {ℓ} {K V D : Type ℓ} ⦃key : Key K⦄ where
  -- The last row of the key among the buckets in use, or else `o`.
  unfoldable pub latest : K → List (Bucket K V D) → Option (Row V D) → Option (Row V D)
  latest q [] o = o
  latest q (u ∷ us) o = latest q us (if u.in_use && key.beq q u.k then some (row u) else o)

  module _ (d : Bucket K V D) (q : K) where
    pub latest-absent :
        (us : List (Bucket K V D)) (o : Option (Row V D))
        → ((j : ℕ) → j < length us → (get_or us j d).in_use ≡ true → (get_or us j d).k ≢ q)
        → latest q us o ≡ o
    unfolding latest get_or
    latest-absent [] o none_here = refl
    latest-absent (u ∷ us) o none_here =
        let rest = latest-absent us o (λ j h. none_here (suc j) (omega arith)) in
        ground (arith, none_here 0 (omega arith), key.beq_iff q u.k, rest)

    -- Every bucket of the key holds the row `r`.
    abbrev pub AllHold : List (Bucket K V D) → Row V D → Type ℓ
    AllHold us r =
        (j : ℕ)
        → j < length us
        → (get_or us j d).in_use ≡ true
        → (get_or us j d).k ≡ q
        → row (get_or us j d) ≡ r

    step_keeps :
        (u : Bucket K V D) (r : Row V D)
        → (u.in_use ≡ true → u.k ≡ q → row u ≡ r)
        → (if u.in_use && key.beq q u.k then some (row u) else some r) ≡ some r
    step_keeps u r same = elim (Bool-cases (u.in_use && key.beq q u.k)) [
      | inl e ↦
          let (in_use, test) = And-true u.in_use (key.beq q u.k) e in
          rw e (ap some (same in_use (sym ((key.beq_iff q u.k).0 test))))
      | inr e ↦ rw e
    ]

    latest_keeps :
        (us : List (Bucket K V D)) (r : Row V D) → AllHold us r → latest q us (some r) ≡ some r
    unfolding latest get_or
    latest_keeps [] r all = refl
    latest_keeps (u ∷ us) r all =
        ap (latest q us) (step_keeps u r (all 0 (omega arith)))
        ∙ latest_keeps us r (λ j h. all (suc j) (omega arith))

    pub latest-held :
        (us : List (Bucket K V D)) (r : Row V D) (o : Option (Row V D)) (j : ℕ)
        → AllHold us r
        → j < length us
        → (get_or us j d).in_use ≡ true
        → (get_or us j d).k ≡ q
        → latest q us o ≡ some r
    unfolding latest get_or
    latest-held [] r o j all h in_use name = absurd (omega arith)
    latest-held (u ∷ us) r o zero all h in_use name =
        rw (in_use, (key.beq_iff q u.k).1 (sym name))
          (ap (λ x. latest q us (some x)) (all 0 h in_use name)
            ∙ latest_keeps us r (λ i l. all (suc i) (omega arith)))
    latest-held (u ∷ us) r o (suc j) all h in_use name =
        latest-held us r _ j (λ i l. all (suc i) (omega arith)) (omega arith) in_use name

module _ {ℓ} {K V D : Type ℓ} ⦃key : Key K⦄ ⦃value : Value V⦄ ⦃kernel : IterateKernel K V D⦄ where
  module _ {t : StateTable K V D} (wf : WellFormed t) (q : K) where
    holders_agree :
        (i j : ℕ)
        → probe t q ≡ hit i
        → j < t.size
        → (slot t j).in_use ≡ true
        → (slot t j).k ≡ q
        → j ≡ i
    holders_agree i j e below in_use name = ground (arith, e, name, wf.probed j below in_use)

    latest-view_at : (p : Found) → probe t q ≡ p → latest q t.buckets none ≡ row_at t p
    latest-view_at (hit i) e =
        let (below, in_use, name) = probe-hit wf.fits q i e in
        latest-held blank q t.buckets (row (slot t i)) none i
          (λ j h u n. ap (λ x. row (slot t x)) (holders_agree i j e (rw (← wf.fits.width) h) u n))
          (rw wf.fits.width below) in_use name
    latest-view_at p e =
        latest-absent blank q t.buckets none
          (λ j h u n. cc (probe-hit_iff wf q j (rw (← wf.fits.width) h) u n))

    pub latest-view : latest q t.buckets none ≡ view t q
    unfolding view
    latest-view = latest-view_at _ refl
