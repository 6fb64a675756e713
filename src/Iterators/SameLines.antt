-- ===== src/Iterators/SameLines.antt =====
-- What `dump` (src/kernel/kernel.h) writes depends on the map that the table stands for, up to the order.
use maiter_p.Base.{
  ℕ, zero, suc, ◌<◌, ◌≤◌, ◌^◌, ◌≡◌, refl, sym, ap, ◌∙◌, true, some, List, [], ◌∷◌, Returns, length,
  get_or, Bool-cases, inl, inr, arith,
}
use mathlib.Core.Logic.{∥∥₁_elim, ∥∥₁_prop}
use mathlib.Core.Logic.Or
use mathlib.Core.Path.{subst}
use mathlib.Core.Option.{some-injective}
use mathlib.Core.List.{
  Mem, Mem-prop, not-mem-nil, mem-cons, mem-cons_self, mem-cons_of_mem, Nodup, Nodup-nil,
  Nodup-cons, Perm, perm_ext_iff_of_Nodup,
}
use maiter_p.Kernel.{Key, Value, IterateKernel}
use maiter_p.StateTable.Defs.{StateTable, Bucket}
use maiter_p.StateTable.Put.{blank}
use maiter_p.StateTable.Probe.{Found, hit, gap, full, slot, probe}
use maiter_p.StateTable.Invariant.{
  used, Row, row, WellFormed, view, row_at, probe-hit, probe-hit_iff,
}
use mathlib.Core.List.Perm
use maiter_p.StateTable.Put.{resize}
use maiter_p.StateTable.Resize.{resize-Stands}
use maiter_p.Iterators.Pass.{Progress, dump}
use maiter_p.Iterators.Results.{results, dump-results}

module _ {ℓ} {K V D : Type ℓ} (o : Bucket K V D) where
  -- A bucket in use with this key and value.
  abbrev Holder : List (Bucket K V D) → K × V → Type ℓ
  Holder us (k, v) =
      (j : ℕ) × (j < length us)
      × ((get_or us j o).in_use ≡ true)
      × ((get_or us j o).k ≡ k)
      × ((get_or us j o).v2 ≡ v)

  pair : {k k' : K} {v v' : V} → k ≡ k' → v ≡ v' → ◌≡◌ {A = K × V} (k, v) (k', v')
  pair p q = cc

  Holder-cons :
      (u : Bucket K V D) (us : List (Bucket K V D)) (x : K × V) → Holder us x → Holder (u ∷ us) x
  unfolding get_or
  Holder-cons u us x (j, below, used, same, value) = (suc j, omega arith, used, same, value)

  later :
      (u : Bucket K V D) (us : List (Bucket K V D)) (x : K × V)
      → ∥ Holder us x ∥₁
      → ∥ Holder (u ∷ us) x ∥₁
  later u us x held = ∥∥₁_elim held ∥∥₁_prop (λ h. ∣ Holder-cons u us x h ∣₁)

  here :
      (u : Bucket K V D) (us : List (Bucket K V D)) (x : K × V)
      → u.in_use ≡ true
      → x ≡ (u.k, u.v2)
      → ∥ Holder (u ∷ us) x ∥₁
  unfolding get_or
  here u us x used same =
      ∣ (zero, omega arith, used, ap (λ y. y.0) (sym same), ap (λ y. y.1) (sym same)) ∣₁

  Holder-mem : (us : List (Bucket K V D)) (x : K × V) → Holder us x → Mem x (results us)
  unfolding results get_or
  Holder-mem [] x (j, below, used, same, value) = absurd (omega arith)
  Holder-mem (u ∷ us) x (zero, below, used, same, value) =
      rw used (subst (λ y. Mem y ((u.k, u.v2) ∷ results us)) (pair same value) mem-cons_self)
  Holder-mem (u ∷ us) x (suc j, below, used, same, value) =
      let rest = Holder-mem us x (j, omega arith, used, same, value) in
      elim (Bool-cases u.in_use) [ inl e ↦ rw e (mem-cons_of_mem _ rest) | inr e ↦ rw e rest ]

  mem-Holder : (us : List (Bucket K V D)) (x : K × V) → Mem x (results us) → ∥ Holder us x ∥₁
  unfolding results get_or
  mem-Holder [] x m = absurd (not-mem-nil m)
  mem-Holder (u ∷ us) x m = elim (Bool-cases u.in_use) [
    | inl e ↦
        let there : Mem x ((u.k, u.v2) ∷ results us) = rw e at m in
        Or.elim ∥∥₁_prop (mem-cons.0 there) (here u us x e)
          (λ rest. later u us x (mem-Holder us x rest))
    | inr e ↦ later u us x (mem-Holder us x (rw e at m))
  ]

  -- No two buckets in use have the same key.
  abbrev AllDiffer : List (Bucket K V D) → Type ℓ
  AllDiffer us =
      (i j : ℕ)
      → i < length us
      → j < length us
      → (get_or us i o).in_use ≡ true
      → (get_or us j o).in_use ≡ true
      → (get_or us i o).k ≡ (get_or us j o).k
      → i ≡ j

  not_later :
      (u : Bucket K V D) (us : List (Bucket K V D)) (v : V)
      → u.in_use ≡ true
      → AllDiffer (u ∷ us)
      → ¬ Holder us (u.k, v)
  unfolding get_or
  not_later u us v used differ (j, below, held, same, value) =
      let e = differ 0 (suc j) (omega arith) (omega arith) used held (sym same) in
      absurd (omega arith)

  results-Nodup : (us : List (Bucket K V D)) → AllDiffer us → Nodup (results us)
  unfolding results get_or
  results-Nodup [] differ = Nodup-nil
  results-Nodup (u ∷ us) differ =
      let rest = results-Nodup us (λ i j below below' used used' same.
        let e = differ (suc i) (suc j) (omega arith) (omega arith) used used' same in
        omega arith) in
      elim (Bool-cases u.in_use) [
        | inl e ↦ rw e (
            Nodup-cons.1 (
              (λ m. ∥∥₁_elim (mem-Holder us (u.k, u.v2) m) (hlevel) (not_later u us u.v2 e differ)),
              rest,
            ))
        | inr e ↦ rw e rest
      ]

hit-injective : {i j : ℕ} → hit i ≡ hit j → i ≡ j
hit-injective e = cc

module _ {ℓ} {K V D : Type ℓ} ⦃key : Key K⦄ ⦃value : Value V⦄ ⦃kernel : IterateKernel K V D⦄ where
  WellFormed-AllDiffer : {t : StateTable K V D} → WellFormed t → AllDiffer blank t.buckets
  WellFormed-AllDiffer {t} wf i j below below' used used' same =
      let width = wf.fits.width in
      let at_i = wf.probed i (omega (arith, width)) used in
      let at_j = wf.probed j (omega (arith, width)) used' in
      hit-injective (sym at_i ∙ ap (probe t) same ∙ at_j)

  -- A line of one table is a line of another that stands for the same map.
  Holder-same :
      {t t' : StateTable K V D}
      → WellFormed t
      → WellFormed t'
      → ((k : K) → view t k ≡ view t' k)
      → (x : K × V) → Holder blank t.buckets x
      → Holder blank t'.buckets x
  unfolding view
  Holder-same {t} {t'} wf wf' same x (j, below, used, name, value) =
      let width = wf.fits.width in
      let found = probe-hit_iff wf x.0 j (omega (arith, width)) used name in
      held (probe t' x.0) refl (ap (row_at t) (sym found) ∙ same x.0)
    where
      held :
          (p : Found)
          → probe t' x.0 ≡ p
          → some (row (slot t j)) ≡ row_at t' p
          → Holder blank t'.buckets x
      held (hit i) found' rows =
          let (below', used', name') = probe-hit wf'.fits x.0 i found' in
          let value' : (slot t j).v2 ≡ (slot t' i).v2 =
            ap (λ (r : Row V D). r.1) (some-injective _ _ rows) in
          (i, (omega (arith, below', wf'.fits.width)), used', name', sym value' ∙ value)
      held (gap i) found' rows = absurd (cc rows)
      held full found' rows = absurd (cc rows)

  line-same :
      {t t' : StateTable K V D}
      → WellFormed t
      → WellFormed t'
      → ((k : K) → view t k ≡ view t' k)
      → (x : K × V) → Mem x (results t.buckets)
      → Mem x (results t'.buckets)
  line-same {t} {t'} wf wf' same x m =
      ∥∥₁_elim (mem-Holder blank t.buckets x m) Mem-prop
        (λ h. Holder-mem blank t'.buckets x (Holder-same wf wf' same x h))

  pub dump-perm :
      {R : Type ℓ} (progress : Progress V R) {t t' : StateTable K V D}
      → WellFormed t
      → WellFormed t'
      → ((k : K) → view t k ≡ view t' k)
      → Returns
          (dump ⦃progress = progress⦄ t)
          λ r. Returns (dump ⦃progress = progress⦄ t') λ r'. Perm r.0 r'.0
  dump-perm progress {t} {t'} wf wf' same =
      let (r, runs, lines) = dump-results ⦃progress = progress⦄ t wf.fits.width in
      let (r', runs', lines') = dump-results ⦃progress = progress⦄ t' wf'.fits.width in
      let perm =
        (perm_ext_iff_of_Nodup (results-Nodup blank t.buckets (WellFormed-AllDiffer wf))
            (results-Nodup blank t'.buckets (WellFormed-AllDiffer wf'))).1
          (λ x. (line-same wf wf' same x, line-same wf' wf (λ k. sym (same k)) x)) in
      (r, runs, (r', runs', rw (lines, lines') perm))

  -- A resize of a well-formed table to a positive size within int that holds its rows, with the entries
  -- counted right if the size stays, ends, and the dump of the old table and of the new one end and
  -- write the same lines, in some order.
  pub dump-resize-perm :
      {R : Type ℓ} (progress : Progress V R) {t : StateTable K V D}
      → WellFormed t
      → (fuel n : ℕ) → (t.size ≡ n → t.entries ≡ used t.buckets)
      → 0 < n
      → n < 2 ^ 31
      → used t.buckets ≤ n
      → Returns (resize (suc fuel) t n) λ t'.
        Returns
          (dump ⦃progress = progress⦄ t)
          λ r. Returns (dump ⦃progress = progress⦄ t') λ r'. Perm r'.0 r.0
  dump-resize-perm progress wf fuel n counted pos small room =
      let (t', run, (stands, few)) = resize-Stands wf fuel n counted pos small room in
      let (r, runs, (r', runs', same)) =
        dump-perm progress wf stands.wf (λ k. sym (stands.reads k)) in
      (t', run, (r, runs, (r', runs', Perm.symm same)))
