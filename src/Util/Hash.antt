-- ===== src/Util/Hash.antt =====
-- `SuperFastHash` of src/util/hash.h, with `hash` of `StringPiece` in src/util/stringpiece.cc and the
-- sharder `String` of src/kernel/table.h. A pointer into a string is the list of the bytes from there
-- on, `hash` and `tmp` are numbers below 2 ^ 32.
use Prim.Native.Nat.{bit_xor}
use maiter_p.Base.{
  ℕ, zero, suc, ◌+◌, ◌-◌, ◌*◌, ◌/◌, ◌%◌, ◌^◌, List, [], ◌∷◌, Run, ok, fault, out_of_range, ◌>>=◌,
  ltb, if◌then◌else◌, drop, length,
}
use maiter_p.Base.Int.{ℤ, pos, negsuc}
use maiter_p.Util.Sharding.{remainder}
pub mod Reads

-- `+`, `<<` and `^` on `uint32_t`.
abbrev pub add32 : ℕ → ℕ → ℕ
add32 a b = (a + b) % 2 ^ 32

abbrev pub shl32 : ℕ → ℕ → ℕ
shl32 a n = a * 2 ^ n % 2 ^ 32

abbrev pub shr32 : ℕ → ℕ → ℕ
shr32 a n = a / 2 ^ n

-- A `char` is signed; in an expression with a `uint32_t` its sign is extended.
unfoldable pub sign_extend : ℕ → ℕ
sign_extend c = if ltb c 128 then c else c + 0xffff_ff00

unfoldable pub char_at : List ℕ → Run ℕ
unfolding sign_extend
char_at [] = fault out_of_range
char_at (c ∷ bytes) = ok (sign_extend c)

unfoldable pub get16bits : List ℕ → Run ℕ
get16bits (c ∷ d ∷ bytes) = ok (shl32 d 8 + c)
get16bits _ = fault out_of_range

-- One pass of the main loop, on the two halves of the next four bytes.
unfoldable pub mix : ℕ → ℕ → ℕ → ℕ
mix hash low high =
    let hash₁ = add32 hash low in
    let tmp = bit_xor (shl32 high 11) hash₁ in
    let hash₂ = bit_xor (shl32 hash₁ 16) tmp in add32 hash₂ (shr32 hash₂ 11)

unfoldable pub main_loop : ℕ → ℕ → List ℕ → Run (ℕ × List ℕ)
unfolding get16bits mix
main_loop zero hash bytes = ok (hash, bytes)
main_loop (suc len) hash bytes = do
  low ← get16bits bytes
  high ← get16bits (drop 2 bytes)
  main_loop len (mix hash low high) (drop 4 bytes)

unfoldable pub end_three : ℕ → ℕ → ℕ → ℕ
end_three hash half c =
    let hash₁ = add32 hash half in
    let hash₂ = bit_xor hash₁ (shl32 hash₁ 16) in
    let hash₃ = bit_xor hash₂ (shl32 c 18) in add32 hash₃ (shr32 hash₃ 11)

unfoldable pub end_two : ℕ → ℕ → ℕ
end_two hash half =
    let hash₁ = add32 hash half in
    let hash₂ = bit_xor hash₁ (shl32 hash₁ 11) in add32 hash₂ (shr32 hash₂ 17)

unfoldable pub end_one : ℕ → ℕ → ℕ
end_one hash c =
    let hash₁ = add32 hash c in
    let hash₂ = bit_xor hash₁ (shl32 hash₁ 10) in add32 hash₂ (shr32 hash₂ 1)

-- `switch (rem)`
unfoldable pub end_cases : ℕ → ℕ → List ℕ → Run ℕ
unfolding char_at get16bits end_three end_two end_one
end_cases (suc (suc (suc zero))) hash bytes = do
  half ← get16bits bytes
  c ← char_at (drop 2 bytes)
  ok (end_three hash half c)
end_cases (suc (suc zero)) hash bytes = do half ← get16bits bytes; ok (end_two hash half)
end_cases (suc zero) hash bytes = do c ← char_at bytes; ok (end_one hash c)
end_cases _ hash bytes = ok hash

-- The last six assignments.
unfoldable pub avalanche : ℕ → ℕ
avalanche hash =
    let hash₁ = bit_xor hash (shl32 hash 3) in
    let hash₂ = add32 hash₁ (shr32 hash₁ 5) in
    let hash₃ = bit_xor hash₂ (shl32 hash₂ 4) in
    let hash₄ = add32 hash₃ (shr32 hash₃ 17) in
    let hash₅ = bit_xor hash₄ (shl32 hash₄ 25) in add32 hash₅ (shr32 hash₅ 6)

-- `len` is an `int`, and where it is not positive the hash is 0.
unfoldable pub super_fast_hash : List ℕ → ℤ → Run ℕ
unfolding main_loop end_cases avalanche
super_fast_hash bytes (negsuc n) = ok 0
super_fast_hash bytes (pos zero) = ok 0
super_fast_hash bytes (pos (suc n)) = do
  (hash, rest) ← main_loop (suc n / 4) (suc n % 2 ^ 32) bytes
  hash₁ ← end_cases (suc n % 4) hash rest
  ok (avalanche hash₁)

-- The conversion of a length to the `int` member `len` of `StringPiece`.
unfoldable pub int_of : ℕ → ℤ
int_of n = let m = n % 2 ^ 32 in if ltb m (2 ^ 31) then pos m else negsuc (2 ^ 32 - 1 - m)

-- `StringPiece::hash`, of a piece that is the whole string.
unfoldable pub hash : List ℕ → Run ℕ
unfolding super_fast_hash int_of
hash bytes = super_fast_hash bytes (int_of (length bytes))

-- `Sharding::String`
unfoldable pub string_shard : List ℕ → ℕ → Run ℤ
unfolding hash remainder
string_shard k shards = do h ← hash k; remainder (pos h) shards
