-- ===== src/Maiter/Balance.antt =====
-- The balance that asynchronous iteration keeps (src/kernel/kernel.h, `run_iter`): at every vertex, the
-- value, the delta and the messages under way add up to the start and all that was spread.
use maiter_p.Base.{
  ℕ, ◌+◌, ◌<◌, ◌≡◌, refl, sym, ap, ◌∙◌, true, some, List, [], Returns, Bool-cases, inl, inr,
  if◌then◌else◌,
}
use mathlib.Core.Option.{some-injective}
use maiter_p.Kernel.{Key, Value, IterateKernel}
use maiter_p.Accumulation.{mail, sent, spread, Accumulative, spread-grow}
use maiter_p.StateTable.Defs.{StateTable, Bucket}
use maiter_p.StateTable.Put.{blank}
use maiter_p.StateTable.Probe.{slot}
use maiter_p.StateTable.Invariant.{
  row, rewritten, WellFormed, view, view-touched, touched-WellFormed,
}
use maiter_p.StateTable.Lookup.{is_some}
use maiter_p.Maiter.Iterate.{spread_vertex}
use maiter_p.Maiter.Vertex.{IsAt, settled, spread_vertex-settled}

module _ {ℓ} {K V D : Type ℓ} ⦃key : Key K⦄ ⦃value : Value V⦄ ⦃kernel : IterateKernel K V D⦄ where
  -- At every key of the table, the value, the delta and the messages under way, `m`, are the constant
  -- `c` and all that the vertices have spread.
  abbrev pub Balanced : (K → V) → StateTable K V D → (K → V) → Type ℓ
  Balanced c t m =
      (j : K) (d v : V) (x : D)
      → view t j ≡ some (d, v, x)
      → kernel.accumulate (kernel.accumulate v d) (m j)
        ≡ kernel.accumulate (c j) (spread kernel t.buckets j)

  -- The two tables hold rows of the same keys.
  abbrev pub SameRows : StateTable K V D → StateTable K V D → Type ℓ
  SameRows t t' = (j : K) → is_some (view t' j) ≡ is_some (view t j)

  module _ (laws : Accumulative kernel) {t : StateTable K V D} (wf : WellFormed t)
      (c m : K → V) where
    module _ (balanced : Balanced c t m) (b : ℕ) (below : b < t.size)
        (used : (slot t b).in_use ≡ true) where
      here : IsAt t (slot t b).k b
      here = record { wf = wf; found = wf.probed b below used }

      abbrev u₀ : Bucket K V D
      u₀ = slot t b

      abbrev after : StateTable K V D
      after = rewritten t b (settled u₀) t.entries (t.total_updates + 1)

      abbrev news : List (K × V)
      news = kernel.g_func u₀.k u₀.v1 (kernel.accumulate u₀.v2 u₀.v1) u₀.v3

      mail-news : (j : K) → mail kernel news j ≡ sent kernel u₀.k u₀.v1 u₀.v3 j
      unfolding sent
      mail-news j = ap (λ out. mail kernel out j) (laws.by_delta u₀.k u₀.v1 _ u₀.v3)

      spread-after :
          (j : K)
          → spread kernel after.buckets j
            ≡ kernel.accumulate (spread kernel t.buckets j) (sent kernel u₀.k u₀.v1 u₀.v3 j)
      unfolding settled
      spread-after j =
          spread-grow kernel laws t.buckets b blank (settled u₀) u₀.v1 j (rw wf.fits.width below)
            used used refl refl refl

      view-after :
          (j : K) → view after j ≡ (if key.beq j u₀.k then some (row (settled u₀)) else view t j)
      unfolding settled
      view-after j =
          view-touched wf u₀.k b (wf.probed b below used) (settled u₀) t.entries _ used refl j

      view-here : view t u₀.k ≡ some (row u₀)
      unfolding view
      view-here = rw (wf.probed b below used)

      -- Both sides of the balance gain what was sent.
      gain :
          (j : K) (p q : V)
          → kernel.accumulate p (m j) ≡ kernel.accumulate (c j) (spread kernel t.buckets j)
          → q ≡ p
          → kernel.accumulate q (kernel.accumulate (m j) (mail kernel news j))
            ≡ kernel.accumulate (c j) (spread kernel after.buckets j)
      gain j p q old e =
          rw
            (
              e,
              mail-news j,
              spread-after j,
              ← laws.monoid.acc_assoc p (m j) (sent kernel u₀.k u₀.v1 u₀.v3 j),
              old,
            )
            (laws.monoid.acc_assoc (c j) _ _)

      Balanced-after : Balanced c after (λ j. kernel.accumulate (m j) (mail kernel news j))
      unfolding settled
      Balanced-after j d v x present = elim (Bool-cases (key.beq j u₀.k)) [
        | inl e ↦
            let name = (key.beq_iff j u₀.k).0 e in
            let r : row (settled u₀) ≡ (d, v, x) =
              some-injective _ _ (sym (view-after j ∙ rw e) ∙ present) in
            gain j (kernel.accumulate u₀.v2 u₀.v1) (kernel.accumulate v d)
              (balanced j u₀.v1 u₀.v2 u₀.v3 (ap (view t) name ∙ view-here))
              (sym (ap (λ y. kernel.accumulate y.1 y.0) r) ∙ laws.monoid.acc_default _)
        | inr e ↦
            gain j (kernel.accumulate v d) (kernel.accumulate v d)
              (balanced j d v x (sym (view-after j ∙ rw e) ∙ present)) refl
      ]

      SameRows-after : SameRows t after
      unfolding settled
      SameRows-after j = elim (Bool-cases (key.beq j u₀.k)) [
        | inl e ↦ let name = (key.beq_iff j u₀.k).0 e in rw (view-after j, e, name, view-here)
        | inr e ↦ rw (view-after j, e)
      ]

      -- The locked part of `run_iter` keeps the balance; its messages are under way.
      pub spread_vertex-Balanced : Returns (spread_vertex t b []) λ r.
          WellFormed r.0
          × Balanced c r.0 (λ j. kernel.accumulate (m j) (mail kernel r.1 j))
          × SameRows t r.0
          × (r.1 ≡ news)
      unfolding settled
      spread_vertex-Balanced = (
        (after, news),
        spread_vertex-settled here laws.plain [],
        (
          touched-WellFormed wf u₀.k b (wf.probed b below used) (settled u₀) _ _ used refl,
          Balanced-after,
          SameRows-after,
          refl,
        ),
      )
