-- ===== src/Maiter/Arrival.antt =====
-- A message under way arrives at its target (`accumulateF1` in src/kernel/kernel.h, `run_iter`), and the
-- balance stays.
use maiter_p.Base.{
  ℕ, ◌<◌, ◌≡◌, refl, sym, ap, ◌∙◌, true, false, some, Returns, arith, Bool-cases, inl, inr,
  if◌then◌else◌,
}
use mathlib.Core.Option.{some-injective}
use maiter_p.Kernel.{Key, Value, IterateKernel, beq_self}
use maiter_p.Accumulation.{spread, Accumulative, spread-same}
use maiter_p.StateTable.Defs.{StateTable, Bucket}
use maiter_p.StateTable.Access.{accumulate_f1, add_to_v1}
use maiter_p.StateTable.Put.{blank}
use maiter_p.StateTable.Probe.{hit, slot, probe}
use maiter_p.StateTable.Invariant.{
  row, rewritten, WellFormed, probe-hit, view, view-touched, touched-WellFormed,
}
use maiter_p.StateTable.Update.{bucket_with_row, touched_by}
use maiter_p.Maiter.Vertex.{accumulate_f1-at}
use maiter_p.Maiter.Balance.{Balanced, SameRows}

module _ {ℓ} {K V D : Type ℓ} ⦃key : Key K⦄ ⦃value : Value V⦄ ⦃kernel : IterateKernel K V D⦄ where
  module _ (laws : Accumulative kernel) {t : StateTable K V D} (wf : WellFormed t)
      (c m : K → V) where
    -- One message arrives.
    module _ (i : K) (a : V)
        (balanced : Balanced c t (λ j. if key.beq i j then kernel.accumulate a (m j) else m j))
        (d₀ v₀ : V) (x₀ : D) (present₀ : view t i ≡ some (d₀, v₀, x₀)) where
      spread-added :
          (b : ℕ) (e n : ℕ) (j : K)
          → spread kernel (rewritten t b (add_to_v1 a (slot t b)) e n).buckets j
            ≡ spread kernel t.buckets j
      unfolding add_to_v1
      spread-added b e n j =
          spread-same kernel laws t.buckets b blank (add_to_v1 a (slot t b)) j refl refl refl refl

      -- The delta takes the message up.
      arrive :
          (d v : V)
          → kernel.accumulate (kernel.accumulate v (kernel.accumulate d a)) (m i)
            ≡ kernel.accumulate (kernel.accumulate v d) (kernel.accumulate a (m i))
      arrive d v =
          ap (λ y. kernel.accumulate y (m i)) (sym (laws.monoid.acc_assoc v d a))
          ∙ laws.monoid.acc_assoc (kernel.accumulate v d) a (m i)

      module _ (b : ℕ) (found : probe t i ≡ hit b) (r : row (slot t b) ≡ (d₀, v₀, x₀)) where
        u₁ : Bucket K V D
        u₁ = slot t b

        facts : (b < t.size) × ((slot t b).in_use ≡ true) × ((slot t b).k ≡ i)
        facts = probe-hit wf.fits i b found

        abbrev taken : StateTable K V D
        taken = touched_by t b (add_to_v1 a) t.total_updates

        taken-WellFormed : WellFormed taken
        unfolding add_to_v1
        taken-WellFormed =
            touched-WellFormed wf i b found (add_to_v1 a (slot t b)) _ _ facts.1 facts.2

        view-taken :
            (j : K)
            → view taken j ≡ (if key.beq j i then some (row (add_to_v1 a (slot t b))) else view t j)
        unfolding add_to_v1
        view-taken j = view-touched wf i b found (add_to_v1 a (slot t b)) _ _ facts.1 facts.2 j

        row-taken : row (add_to_v1 a (slot t b)) ≡ (kernel.accumulate d₀ a, v₀, x₀)
        unfolding add_to_v1
        row-taken = ap (λ y. (kernel.accumulate y.0 a, y.1, y.2)) r

        -- At the target, the delta has taken the message up.
        reach :
            (j : K) (p : V)
            → p ≡ kernel.accumulate v₀ (kernel.accumulate d₀ a)
            → j ≡ i
            → kernel.accumulate p (m j) ≡ kernel.accumulate (c j) (spread kernel taken.buckets j)
        reach j p e name =
            let old : kernel.accumulate (kernel.accumulate v₀ d₀) (kernel.accumulate a (m i))
                ≡ kernel.accumulate (c i) (spread kernel t.buckets i) =
              ap
                (λ f.
                  kernel.accumulate (kernel.accumulate v₀ d₀)
                    (if f then kernel.accumulate a (m i) else m i))
                (sym (beq_self i))
              ∙ balanced i d₀ v₀ x₀ present₀ in
            rw (name, e, arrive d₀ v₀, old, spread-added b t.entries t.total_updates i)

        Balanced-taken : Balanced c taken m
        Balanced-taken j d v x present = elim (Bool-cases (key.beq j i)) [
          | inl e ↦
              let name = (key.beq_iff j i).0 e in
              let q : (kernel.accumulate d₀ a, v₀, x₀) ≡ (d, v, x) =
                sym row-taken ∙ some-injective _ _ (sym (view-taken j ∙ rw e) ∙ present) in
              reach j (kernel.accumulate v d) (ap (λ y. kernel.accumulate y.1 y.0) (sym q)) name
          | inr e ↦
              let other : key.beq i j ≡ false =
                ground (arith, e, key.beq_iff i j, key.beq_iff j i) in
              ap (λ z. kernel.accumulate (kernel.accumulate v d) z)
                (sym (ap (λ f. if f then kernel.accumulate a (m j) else m j) other))
              ∙ balanced j d v x (sym (view-taken j ∙ rw e) ∙ present)
              ∙ ap (λ z. kernel.accumulate (c j) z)
                  (sym (spread-added b t.entries t.total_updates j))
        ]

        SameRows-taken : SameRows t taken
        SameRows-taken j = elim (Bool-cases (key.beq j i)) [
          | inl e ↦ let name = (key.beq_iff j i).0 e in rw (view-taken j, e, name, present₀)
          | inr e ↦ rw (view-taken j, e)
        ]

      -- Accumulating a message that was under way into its target keeps the balance.
      pub accumulate_f1-Balanced :
          Returns (accumulate_f1 t i a) λ t'. WellFormed t' × Balanced c t' m × SameRows t t'
      accumulate_f1-Balanced =
          let (b, found, r) = bucket_with_row wf i d₀ v₀ x₀ present₀ in
          (
            taken b found r,
            accumulate_f1-at (record { wf = wf; found = found }) a,
            (taken-WellFormed b found r, Balanced-taken b found r, SameRows-taken b found r),
          )
