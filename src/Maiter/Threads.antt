-- ===== src/Maiter/Threads.antt =====
-- The worker threads of src/kernel/kernel.h as a step relation. A worker holds the lock of a vertex over
-- each region below, and a step is one such region. Two regions under different locks touch different
-- buckets, but for the counter `total_updates`, which the workers race on.
use maiter_p.Base.{
  ℕ, ◌<◌, ◌≡◌, sym, ap, ◌∙◌, true, some, List, [], ◌∷◌, ok, Returns-unique, length, get_or, set,
  Option-cases, inl, inr,
}
use maiter_p.Kernel.{Key, Value, IterateKernel}
use maiter_p.Accumulation.{spread, spread-default, Accumulative}
use maiter_p.Maiter.Transit.{in_transit, in_transit-take, in_transit-deliver, in_transit-empty}
use maiter_p.StateTable.Defs.{StateTable}
use maiter_p.StateTable.Access.{accumulate_f1}
use maiter_p.StateTable.Probe.{slot}
use maiter_p.StateTable.Invariant.{WellFormed, view, row_at}
use maiter_p.StateTable.Put.{blank}
use maiter_p.StateTable.Update.{writers-absent}
use maiter_p.Maiter.Iterate.{spread_vertex}
use maiter_p.Maiter.Balance.{Balanced, spread_vertex-Balanced}
use maiter_p.Maiter.Arrival.{accumulate_f1-Balanced}

-- The shared table and the output buffer of each worker.
pub record System {ℓ} (K V D : Type ℓ) : Type ℓ where
  pub table : StateTable K V D
  pub buffers : List (List (K × V))

module _ {ℓ} {K V D : Type ℓ} ⦃key : Key K⦄ ⦃value : Value V⦄ ⦃kernel : IterateKernel K V D⦄ where
  -- A worker with an empty buffer takes up any bucket in use; one with messages delivers the first.
  pub data Step : System K V D → System K V D → Type ℓ where
    take :
        {s : System K V D} {t : StateTable K V D} {out : List (K × V)} (w pos : ℕ)
        → w < length s.buffers
        → get_or s.buffers w [] ≡ []
        → pos < s.table.size
        → (slot s.table pos).in_use ≡ true
        → spread_vertex s.table pos [] ≡ ok (t, out)
        → Step s (record { table = t; buffers = set s.buffers w out })
    deliver :
        {s : System K V D} {t : StateTable K V D} {out : List (K × V)} (w : ℕ) (i : K) (a : V)
        → get_or s.buffers w [] ≡ (i, a) ∷ out
        → accumulate_f1 s.table i a ≡ ok t
        → Step s (record { table = t; buffers = set s.buffers w out })

  pub data Reaches : System K V D → System K V D → Type ℓ where
    start : {s : System K V D} → Reaches s s
    more : {r s t : System K V D} → Reaches r s → Step s t → Reaches r t

  -- What the workers keep: the table is sound, and balances with the messages in the buffers.
  pub record Sound (c : K → V) (s : System K V D) : Type ℓ where
    pub wf : WellFormed s.table
    pub balanced : Balanced c s.table (in_transit kernel s.buffers)

  module _ (laws : Accumulative kernel) {c : K → V} where
    Balanced-mail :
        (t : StateTable K V D) (m m' : K → V)
        → ((j : K) → m' j ≡ m j)
        → Balanced c t m
        → Balanced c t m'
    Balanced-mail t m m' same balanced j d v x present =
        ap (λ z. kernel.accumulate (kernel.accumulate v d) z) (same j) ∙ balanced j d v x present

    Sound-take :
        {s : System K V D} {t : StateTable K V D} {out : List (K × V)} (w pos : ℕ)
        → Sound c s
        → w < length s.buffers
        → get_or s.buffers w [] ≡ []
        → pos < s.table.size
        → (slot s.table pos).in_use ≡ true
        → spread_vertex s.table pos [] ≡ ok (t, out)
        → Sound c (record { table = t; buffers = set s.buffers w out })
    Sound-take {s} {t} {out} w pos sound hw idle hpos used run =
        let m = in_transit kernel s.buffers in
        let (wf', balanced', _, _) =
          Returns-unique _ (spread_vertex-Balanced laws sound.wf c m sound.balanced pos hpos used)
            run in
        record {
          wf = wf';
          balanced =
              Balanced-mail t _ _ (λ j. in_transit-take kernel laws s.buffers w out j hw idle)
                balanced';
        }

    Sound-deliver :
        {s : System K V D} {t : StateTable K V D} {out : List (K × V)} (w : ℕ) (i : K) (a : V)
        → Sound c s
        → get_or s.buffers w [] ≡ (i, a) ∷ out
        → accumulate_f1 s.table i a ≡ ok t
        → Sound c (record { table = t; buffers = set s.buffers w out })
    Sound-deliver {s} {t} {out} w i a sound first run = elim (Option-cases (view s.table i)) [
      | inl absent ↦ absurd (cc ((writers-absent sound.wf i absent a kernel.no_data).3, run))
      | inr ((d, v, x), present) ↦
          let m = in_transit kernel (set s.buffers w out) in
          let before =
            Balanced-mail s.table _ _
              (λ j. sym (in_transit-deliver kernel laws s.buffers w i a out j first))
              sound.balanced in
          let (wf', balanced', _) =
            Returns-unique _ (accumulate_f1-Balanced laws sound.wf c m i a before d v x present)
              run in
          record { wf = wf'; balanced = balanced' }
    ]

    Step-Sound : {s s' : System K V D} → Sound c s → Step s s' → Sound c s'
    Step-Sound sound (take w pos hw idle hpos used run) =
        Sound-take w pos sound hw idle hpos used run
    Step-Sound sound (deliver w i a first run) = Sound-deliver w i a sound first run

    -- For an accumulative kernel, every state that the workers reach from a sound state, in any
    -- interleaving of regions under a lock, is sound: the table is well formed, and value, delta and
    -- messages under way balance the constant and all that was spread.
    pub Reaches-Sound : {s s' : System K V D} → Sound c s → Reaches s s' → Sound c s'
    Reaches-Sound sound start = sound
    Reaches-Sound sound (more reach step) = Step-Sound (Reaches-Sound sound reach) step

    -- For an accumulative kernel, wherever the workers come to rest from a sound state, in any
    -- interleaving, with every delta at the default and every output buffer empty, each value is the
    -- constant and all that the table's vertices send it for their whole values.
    pub Reaches-fixpoint :
        {s s' : System K V D}
        → Sound c s
        → Reaches s s'
        → ((w : ℕ) → get_or s'.buffers w [] ≡ [])
        → ((j : K) (d v : V) (x : D) → view s'.table j ≡ some (d, v, x) → d ≡ kernel.default_v)
        → (j : K) (d v : V) (x : D) → view s'.table j ≡ some (d, v, x)
        → v ≡ kernel.accumulate (c j) (spread kernel s'.table.buckets j)
    Reaches-fixpoint {s' = s'} sound reach empty rest j d v x present =
        sym (
          rw
            (
              rest j d v x present,
              in_transit-empty kernel laws s'.buffers j empty,
              laws.monoid.acc_default v,
            )
            (laws.monoid.acc_default v))
        ∙ (Reaches-Sound sound reach).balanced j d v x present

    -- For an accumulative kernel, a well-formed table whose deltas are the constants and whose values
    -- are the default, with empty output buffers, is a sound state.
    pub start-Sound :
        (t : StateTable K V D) (bs : List (List (K × V)))
        → WellFormed t
        → ((w : ℕ) → get_or bs w [] ≡ [])
        → ((j : K) (d v : V) (x : D)
            → view t j ≡ some (d, v, x)
            → (d ≡ c j) × (v ≡ kernel.default_v))
        → Sound c (record { table = t; buffers = bs })
    unfolding view
    start-Sound t bs wf empty fresh = record {
      wf = wf;
      balanced = λ j d v x present.
          let (is_c, is_default) = fresh j d v x present in
          let quiet = spread-default kernel laws t.buckets blank j (λ i h used.
            let below : i < t.size = rw (← wf.fits.width) h in
            (fresh (slot t i).k (slot t i).v1 (slot t i).v2 (slot t i).v3
              (ap (row_at t) (wf.probed i below used))).1) in
          ap (λ (y : V × V × V). kernel.accumulate (kernel.accumulate y.0 y.1) y.2)
            (ap (λ a. (a, d, in_transit kernel bs j)) is_default
              ∙ ap (λ a. (kernel.default_v, a, in_transit kernel bs j)) is_c
              ∙ ap (λ a. (kernel.default_v, c j, a)) (in_transit-empty kernel laws bs j empty))
          ∙ laws.monoid.acc_default _
          ∙ laws.monoid.acc_comm _ _
          ∙ ap (λ a. kernel.accumulate (c j) a) (sym quiet);
    }
