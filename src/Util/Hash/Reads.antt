-- ===== src/Util/Hash/Reads.antt =====
-- What `SuperFastHash` of src/util/hash.h reads: the bytes of the piece, and none behind them.
use maiter_p.Base.{
  ℕ, zero, suc, ◌+◌, ◌*◌, ◌/◌, ◌%◌, ◌^◌, ◌<◌, ◌≤◌, ◌≡◌, refl, sym, ap, ◌∙◌, ltb, Bool-cases, inl,
  inr, List, [], ◌∷◌, ◌++◌, Run, ok, Returns, length, arith,
}
use mathlib.Core.List.{append_assoc}
use maiter_p.Base.Int.{pos}
use maiter_p.Util.Sharding.{remainder}
use maiter_p.Util.Hash.{
  get16bits, char_at, main_loop, end_cases, avalanche, super_fast_hash, int_of, hash, string_shard,
}

-- Two runs over a string, of which one has more behind it.
abbrev ReadsOn : ℕ → List ℕ → Run (ℕ × List ℕ) → Run (ℕ × List ℕ) → Type 0
ReadsOn n more r r' =
    (h : ℕ) × (rest : List ℕ) × (r ≡ ok (h, rest ++ more)) × (r' ≡ ok (h, rest)) × (length rest ≡ n)

main_loop-ReadsOn :
    (n m h : ℕ) (bytes more : List ℕ)
    → length bytes ≡ 4 * n + m
    → ReadsOn m more (main_loop n h (bytes ++ more)) (main_loop n h bytes)
unfolding main_loop get16bits
main_loop-ReadsOn zero m h bytes more e = (h, bytes, refl, refl, omega arith)
main_loop-ReadsOn (suc n) m h (a ∷ b ∷ c ∷ d ∷ bytes) more e =
    main_loop-ReadsOn n m _ bytes more (omega arith)
main_loop-ReadsOn (suc n) m h [] more e = absurd (omega arith)
main_loop-ReadsOn (suc n) m h (a ∷ []) more e = absurd (omega arith)
main_loop-ReadsOn (suc n) m h (a ∷ b ∷ []) more e = absurd (omega arith)
main_loop-ReadsOn (suc n) m h (a ∷ b ∷ c ∷ []) more e = absurd (omega arith)

end_cases-reads :
    (h : ℕ) (bytes more : List ℕ)
    → length bytes < 4
    → (h' : ℕ) × (end_cases (length bytes) h (bytes ++ more) ≡ ok h')
      × (end_cases (length bytes) h bytes ≡ ok h')
unfolding end_cases get16bits char_at
end_cases-reads h [] more lt = (_, refl, refl)
end_cases-reads h (a ∷ []) more lt = (_, refl, refl)
end_cases-reads h (a ∷ b ∷ []) more lt = (_, refl, refl)
end_cases-reads h (a ∷ b ∷ c ∷ []) more lt = (_, refl, refl)
end_cases-reads h (a ∷ b ∷ c ∷ d ∷ bytes) more lt = absurd (omega arith)

end_reads :
    (n h : ℕ) (bytes more : List ℕ)
    → length bytes ≡ n
    → n < 4
    → (h' : ℕ) × (end_cases n h (bytes ++ more) ≡ ok h') × (end_cases n h bytes ≡ ok h')
end_reads n h bytes more e lt = rw (sym e) (end_cases-reads h bytes more (omega arith))

avalanche-lt : (h : ℕ) → avalanche h < 2 ^ 32
unfolding avalanche
avalanche-lt h = omega arith

-- What a run of the hash over a string tells, with anything behind the string.
abbrev IsRead : Run ℕ → Run ℕ → Type 0
IsRead r r' = Returns r λ h. (h < 2 ^ 32) × (r' ≡ ok h)

prefix-reads :
    (bytes more : List ℕ)
    → IsRead
        (super_fast_hash (bytes ++ more) (pos (length bytes)))
        (super_fast_hash bytes (pos (length bytes)))
unfolding super_fast_hash
prefix-reads [] more = (0, refl, (omega arith, refl))
prefix-reads (b ∷ bytes) more =
    let n = length (b ∷ bytes) in
    let (h, rest, main, main', left) =
      main_loop-ReadsOn (n / 4) (n % 4) (n % 2 ^ 32) (b ∷ bytes) more (omega arith) in
    let (h', last, last') = end_reads (n % 4) h rest more left (omega arith) in
    (avalanche h', rw main (rw last refl), (avalanche-lt h', rw main' (rw last' refl)))

split_at :
    (n : ℕ) (bytes : List ℕ)
    → n ≤ length bytes
    → (front : List ℕ) × (back : List ℕ) × (bytes ≡ front ++ back) × (length front ≡ n)
split_at zero bytes le = ([], bytes, refl, refl)
split_at (suc n) [] le = absurd (omega arith)
split_at (suc n) (b ∷ bytes) le =
    let (front, back, same, size) = split_at n bytes (omega arith) in
    (b ∷ front, back, ap (λ xs. b ∷ xs) same, ap suc size)

-- With a length of no more than the bytes there are.
within-reads :
    (n : ℕ) (bytes more : List ℕ)
    → n ≤ length bytes
    → IsRead (super_fast_hash (bytes ++ more) (pos n)) (super_fast_hash bytes (pos n))
within-reads n bytes more le =
    let (front, back, same, size) = split_at n bytes le in
    let (h, run, (bound, alone)) = prefix-reads front (back ++ more) in
    let (h', run', (bound', alone')) = prefix-reads front back in
    let shorter : super_fast_hash bytes (pos n) ≡ ok h' =
      ap (λ xs. super_fast_hash xs (pos n)) same
      ∙ ap (λ k. super_fast_hash (front ++ back) (pos k)) (sym size)
      ∙ run' in
    let longer : super_fast_hash (bytes ++ more) (pos n) ≡ ok h =
      ap (λ xs. super_fast_hash (xs ++ more) (pos n)) same
      ∙ ap (λ xs. super_fast_hash xs (pos n)) (append_assoc front back more)
      ∙ ap (λ k. super_fast_hash (front ++ (back ++ more)) (pos k)) (sym size)
      ∙ run in
    (h, longer, (bound, shorter ∙ sym alone' ∙ alone))

-- The hash of a piece, whose length is converted to int, reads no byte behind it: with anything behind
-- the piece it ends, in a number below 2 ^ 32, which is the hash of the piece alone.
pub super_fast_hash-reads :
    (bytes more : List ℕ)
    → Returns
        (super_fast_hash (bytes ++ more) (int_of (length bytes)))
        (λ h. (h < 2 ^ 32) × (super_fast_hash bytes (int_of (length bytes)) ≡ ok h))
unfolding int_of super_fast_hash
super_fast_hash-reads bytes more = elim (Bool-cases (ltb (length bytes % 2 ^ 32) (2 ^ 31))) [
  | inl small ↦ rw small (within-reads (length bytes % 2 ^ 32) bytes more (omega arith))
  | inr large ↦ rw large (0, refl, (omega arith, refl))
]

-- A string goes to a shard below their number.
pub string_shard-lt :
    (k : List ℕ) (shards : ℕ)
    → 0 < shards
    → Returns (string_shard k shards) (λ shard. (n : ℕ) × (shard ≡ pos n) × (n < shards))
unfolding string_shard hash remainder
string_shard-lt k zero lt = absurd (omega arith)
string_shard-lt k (suc shards) lt =
    let (h, run, (bound, run')) = super_fast_hash-reads k [] in
    rw run' (_, refl, (h % suc shards, refl, omega arith))

-- The hash of a string ends, in a number below 2 ^ 32.
pub super_fast_hash-Returns :
    (bytes : List ℕ) → Returns (super_fast_hash bytes (int_of (length bytes))) (λ h. h < 2 ^ 32)
super_fast_hash-Returns bytes =
    let (h, run, (bound, run')) = super_fast_hash-reads bytes [] in (h, run', bound)
