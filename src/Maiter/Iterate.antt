-- ===== src/Maiter/Iterate.antt =====
-- `MaiterKernel2::run_iter` of src/kernel/kernel.h. It holds the lock of one vertex at a time: first of
-- its own vertex, then of each target in turn.
use maiter_p.Base.{ℕ, List, [], ◌∷◌, ◌++◌, Run, ok, ◌>>=◌}
use maiter_p.Kernel.{Key, Value, IterateKernel}
use maiter_p.Locks.{Vertexlock, lock, unlock}
use maiter_p.StateTable.Defs.{StateTable, Bucket, at, modify}
use maiter_p.StateTable.Access.{accumulate_f1, accumulate_f2, update_f1}

module _ {ℓ} {K V D : Type ℓ} ⦃key : Key K⦄ ⦃value : Value V⦄ ⦃kernel : IterateKernel K V D⦄ where
  -- What `process_delta_v` makes of the bucket that its references point into.
  unfoldable pub process_row : Bucket K V D → Bucket K V D
  process_row u =
      let (d, v, x) = kernel.process_delta_v u.k u.v1 u.v2 u.v3 in
      record u { v1 = d; v2 = v; v3 = x }

  -- The part of `run_iter` under the lock of the vertex in bucket `pos`: its delta goes into its value,
  -- is spread into the output buffer, and is reset.
  unfoldable pub spread_vertex :
      StateTable K V D → ℕ → List (K × V) → Run (StateTable K V D × List (K × V))
  spread_vertex t pos out = do
    u ← at t.buckets pos
    t₁ ← modify t pos process_row
    p ← at t₁.buckets pos
    t₂ ← accumulate_f2 t₁ u.k p.v1
    w ← at t₂.buckets pos
    t₃ ← update_f1 t₂ u.k kernel.default_v
    ok (t₃, out ++ kernel.g_func u.k w.v1 w.v2 w.v3)

  unfoldable pub locked_spread :
      Vertexlock
      → StateTable K V D
      → ℕ
      → List (K × V)
      → Run (Vertexlock × StateTable K V D × List (K × V))
  locked_spread l t pos out = do
    u ← at t.buckets pos
    l₁ ← lock l (key.node u.k)
    (t₁, out₁) ← spread_vertex t pos out
    l₂ ← unlock l₁ (key.node u.k)
    ok (l₂, t₁, out₁)

  -- One round of the loop over the output buffer.
  unfoldable pub locked_accumulate :
      Vertexlock → StateTable K V D → K × V → Run (Vertexlock × StateTable K V D)
  locked_accumulate l t (j, a) = do
    l₁ ← lock l (key.node j)
    t₁ ← accumulate_f1 t j a
    l₂ ← unlock l₁ (key.node j)
    ok (l₂, t₁)

  unfoldable pub send_output :
      Vertexlock → StateTable K V D → List (K × V) → Run (Vertexlock × StateTable K V D)
  send_output l t [] = ok (l, t)
  send_output l t (m ∷ out) = locked_accumulate l t m >>= λ (l₁, t₁). send_output l₁ t₁ out

  -- The output buffer is empty before each call, and is cleared at the end.
  unfoldable pub run_iter : Vertexlock → StateTable K V D → ℕ → Run (Vertexlock × StateTable K V D)
  run_iter l t pos = do (l₁, t₁, out) ← locked_spread l t pos []; send_output l₁ t₁ out
