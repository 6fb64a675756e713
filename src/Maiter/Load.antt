-- ===== src/Maiter/Load.antt =====
-- The first phase of src/kernel/kernel.h: `init_table` and `read_file` of `MaiterKernel1`, with
-- `InitStateTable` of src/kernel/globaltable.h and `CreateTable` of src/kernel/table-registry.h.
use maiter_p.Base.{
  ℕ, suc, false, List, [], ◌∷◌, Run, ok, fault, log_fatal, ◌>>=◌, ltb, if◌then◌else◌,
}
use maiter_p.Kernel.{Key, Value, IterateKernel}
use maiter_p.StateTable.Defs.{StateTable}
use maiter_p.StateTable.Put.{put, resize, create}

module _ {ℓ} {K V D : Type ℓ} ⦃key : Key K⦄ ⦃value : Value V⦄ ⦃kernel : IterateKernel K V D⦄ where
  -- `New` makes a table of size 1, and `Init` clears the signal to terminate. (The marshals that `Init`
  -- asserts are set by the first `CreateTable`.)
  unfoldable pub create_table : Run (StateTable K V D)
  create_table = do t ← create 2 1; ok (record t { terminated = false })

  -- One round of the loop over the lines of the input. The key and the data are fresh in each round.
  unfoldable pub read_line : StateTable K V D → List ℕ → Run (StateTable K V D)
  read_line table line = do
    (k, links) ← kernel.read_data line key.no_key kernel.no_data
    put 2 table k (kernel.init_c k links) (kernel.init_v k links) links

  -- The loop, with the number of lines read.
  unfoldable pub read_lines : StateTable K V D → List (List ℕ) → Run (StateTable K V D × ℕ)
  read_lines table [] = ok (table, 0)
  read_lines table (line ∷ rest) = do
    table' ← read_line table line
    (table'', n) ← read_lines table' rest
    ok (table'', suc n)

  -- The LOG_FATAL line on more threads than lines throws.
  unfoldable pub read_file : ℕ → StateTable K V D → List (List ℕ) → Run (StateTable K V D × ℕ)
  read_file num_threads table file = do
    (table', line) ← read_lines table file
    if ltb line num_threads then fault log_fatal else ok (table', line)

  -- On a global table that is not initialized yet.
  unfoldable pub init_table : ℕ → ℕ → List (List ℕ) → Run (StateTable K V D × ℕ)
  init_table num_threads num_nodes file = do
    t ← create_table
    t' ← resize 2 t num_nodes
    read_file num_threads t' file
