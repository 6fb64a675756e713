-- ===== src/Maiter/Turn.antt =====
-- A whole call of `run_iter` (src/kernel/kernel.h) by one worker: it ends, gives the locks back, and
-- keeps the balance.
use maiter_p.Base.{
  ℕ, ◌<◌, ◌≡◌, refl, sym, ap, ◌∙◌, true, some, List, [], ◌∷◌, ok, ◌>>=◌, Returns, none, Option,
}
use maiter_p.Kernel.{Key, Value, IterateKernel}
use maiter_p.Locks.{Vertexlock, IsFree, lock-free, unlock-locked}
use maiter_p.Accumulation.{mail, Accumulative}
use maiter_p.StateTable.Defs.{StateTable, at}
use maiter_p.StateTable.Access.{accumulate_f1}
use maiter_p.StateTable.Probe.{slot}
use maiter_p.StateTable.Invariant.{WellFormed, view}
use maiter_p.StateTable.Lookup.{is_some}
use maiter_p.Maiter.Iterate.{spread_vertex, locked_spread, locked_accumulate, send_output, run_iter}
use maiter_p.Maiter.Vertex.{at-slot}
use maiter_p.Maiter.Transit.{second_of}
use maiter_p.Maiter.Balance.{Balanced, SameRows, spread_vertex-Balanced}
use maiter_p.Maiter.Arrival.{accumulate_f1-Balanced}

present_row {ℓ} : {A : Type ℓ} (o : Option A) → is_some o ≡ true → (a : A) × (o ≡ some a)
present_row none there = absurd (cc there)
present_row (some a) there = (a, refl)

module _ {ℓ} {K V D : Type ℓ} ⦃key : Key K⦄ ⦃value : Value V⦄ ⦃kernel : IterateKernel K V D⦄ where
  -- Every message has a row to go to, and no one holds the lock of that row.
  pub data Deliverable (l : Vertexlock) (t : StateTable K V D) : List (K × V) → Type ℓ where
    no_message : Deliverable l t []
    message :
        {i : K} {a : V} {out : List (K × V)}
        → IsFree l (key.node i)
        → is_some (view t i) ≡ true
        → Deliverable l t out
        → Deliverable l t ((i, a) ∷ out)

  pub Deliverable-same :
      {l : Vertexlock} {t t' : StateTable K V D} {out : List (K × V)}
      → SameRows t t'
      → Deliverable l t out
      → Deliverable l t' out
  Deliverable-same same no_message = no_message
  Deliverable-same same (message {i} free there rest) =
      message free (same i ∙ there) (Deliverable-same same rest)

  locked_accumulate-runs :
      (l : Vertexlock) (t t' : StateTable K V D) (i : K) (a : V)
      → IsFree l (key.node i)
      → accumulate_f1 t i a ≡ ok t'
      → locked_accumulate l t (i, a) ≡ ok (l, t')
  unfolding locked_accumulate
  locked_accumulate-runs l t t' i a free run =
      rw (lock-free l (key.node i) free, run, unlock-locked l (key.node i) free)

  locked_spread-runs :
      (l : Vertexlock) (t t' : StateTable K V D) (pos : ℕ) (out : List (K × V))
      → at t.buckets pos ≡ ok (slot t pos)
      → IsFree l (key.node (slot t pos).k)
      → spread_vertex t pos [] ≡ ok (t', out)
      → locked_spread l t pos [] ≡ ok (l, t', out)
  unfolding locked_spread
  locked_spread-runs l t t' pos out there free run = rw (
    there,
    lock-free l (key.node (slot t pos).k) free,
    run,
    unlock-locked l (key.node (slot t pos).k) free,
  )

  module _ (laws : Accumulative kernel) (c : K → V) (m : K → V) where
    -- The run gave the locks back, and kept the balance and the set of the keys.
    pub record Kept (l : Vertexlock) (t : StateTable K V D) (r : Vertexlock × StateTable K V D)
        : Type ℓ where
      pub locks : r.0 ≡ l
      pub wf : WellFormed r.1
      pub balanced : Balanced c r.1 m
      pub same_rows : SameRows t r.1

    send_output-Kept :
        (l : Vertexlock) (t : StateTable K V D) (out : List (K × V))
        → WellFormed t
        → Balanced c t (λ j. kernel.accumulate (m j) (mail kernel out j))
        → Deliverable l t out
        → Returns (send_output l t out) (Kept l t)
    unfolding send_output mail
    send_output-Kept l t [] wf balanced no_message = (
      (l, t),
      refl,
      record {
        locks = refl;
        wf = wf;
        balanced = λ j d v x present.
            ap (λ z. kernel.accumulate (kernel.accumulate v d) z)
              (sym (laws.monoid.acc_default (m j)))
            ∙ balanced j d v x present;
        same_rows = λ j. refl;
      },
    )
    send_output-Kept l t ((i, a) ∷ out) wf balanced (message free there rest) =
        let ((d₀, v₀, x₀), present₀) = present_row (view t i) there in
        let (t', run, (wf', balanced', same)) =
          accumulate_f1-Balanced laws wf c (λ j. kernel.accumulate (m j) (mail kernel out j)) i a
            (λ j d v x present.
              ap (λ z. kernel.accumulate (kernel.accumulate v d) z)
                (sym (second_of kernel laws (key.beq i j) a (m j) (mail kernel out j)))
              ∙ balanced j d v x present)
            d₀ v₀ x₀ present₀ in
        let (r, runs, kept) =
          send_output-Kept l t' out wf' balanced' (Deliverable-same same rest) in
        let first : locked_accumulate l t (i, a) ≡ ok (l, t') =
          locked_accumulate-runs l t t' i a free run in
        (
          r,
          ap (λ z. z >>= λ (l₁, t₁). send_output l₁ t₁ out) first ∙ runs,
          record {
            locks = kept.locks;
            wf = kept.wf;
            balanced = kept.balanced;
            same_rows = λ j. kept.same_rows j ∙ same j;
          },
        )

    module _ (l : Vertexlock) {t : StateTable K V D} (wf : WellFormed t) (balanced : Balanced c t m)
        (pos : ℕ) (below : pos < t.size) (used : (slot t pos).in_use ≡ true)
        (free : IsFree l (key.node (slot t pos).k))
        (deliverable : Deliverable l t (
          kernel.g_func
            (slot t pos).k
            (slot t pos).v1
            (kernel.accumulate (slot t pos).v2 (slot t pos).v1)
            (slot t pos).v3)) where
      -- For an accumulative kernel, run_iter on a bucket in use whose messages can all be delivered and
      -- whose locks are free ends without a fault, gives the locks back, and keeps the table well
      -- formed, its keys and its balance.
      pub run_iter-Kept : Returns (run_iter l t pos) (Kept l t)
      unfolding run_iter
      run_iter-Kept =
          let ((t', out), run, (wf', balanced', same, news)) =
            spread_vertex-Balanced laws wf c m balanced pos below used in
          let (r, runs, kept) =
            send_output-Kept l t' out wf' balanced' (rw news (Deliverable-same same deliverable)) in
          let there = at-slot (record { wf = wf; found = wf.probed pos below used }) in
          (
            r,
            ap (λ z. z >>= λ (l₁, t₁, out₁). send_output l₁ t₁ out₁)
                  (locked_spread-runs l t t' pos out there free run)
                ∙ runs,
            record {
              locks = kept.locks;
              wf = kept.wf;
              balanced = kept.balanced;
              same_rows = λ j. kept.same_rows j ∙ same j;
            },
          )
