-- ===== src/Samples/Hashes.antt =====
-- Hashes, tuples and rows as strings.
use maiter_p.Base.{ℕ, ◌^◌, ◌<◌, ◌≡◌, refl, true, List, [], ◌∷◌, ◌++◌, ok, Returns, arith}
use maiter_p.Util.Hash.{super_fast_hash, int_of, hash, string_shard}
use maiter_p.Util.Hash.Reads.{super_fast_hash-reads}
use maiter_p.Util.Sharding.{remainder}
use maiter_p.Base.Int.{pos}
use maiter_p.Util.Marshal.{
  word_marshal, string_marshal, word_marshal-IsReadBack, string_marshal-IsReadBack,
}
use maiter_p.StateTable.Total.{Stores}
use maiter_p.TypedTable.{contains_str, get_str, update_str}
use maiter_p.TypedTable.Tables.{Marshals, typed_statetable}
use maiter_p.TypedTable.Strings.{update_str-Stores, row_str, ReadsBack}
use maiter_p.Samples.{number_key, number_value, number_kernel, pair, pair-WellFormed}

-- `hello`, `maiter`, and `maiter` with a byte above 127.
hello : hash (104 ∷ 101 ∷ 108 ∷ 108 ∷ 111 ∷ []) ≡ ok 2963130491
unfolding hash
hello = refl

maiter : hash (109 ∷ 97 ∷ 105 ∷ 116 ∷ 101 ∷ 114 ∷ []) ≡ ok 3235287158
unfolding hash
maiter = refl

high_byte : hash (109 ∷ 97 ∷ 105 ∷ 116 ∷ 101 ∷ 114 ∷ 200 ∷ []) ≡ ok 1420901422
unfolding hash
high_byte = refl

hello_shard : string_shard (104 ∷ 101 ∷ 108 ∷ 108 ∷ 111 ∷ []) 4 ≡ ok (pos 3)
unfolding string_shard hash remainder
hello_shard = refl

-- The piece `ma` in front of `iter`.
super_fast_hash-reads_example :
    Returns
      (super_fast_hash ((109 ∷ 97 ∷ []) ++ (105 ∷ 116 ∷ 101 ∷ 114 ∷ [])) (pos 2))
      (λ h. (h < 2 ^ 32) × (super_fast_hash (109 ∷ 97 ∷ []) (pos 2) ≡ ok h))
unfolding int_of
super_fast_hash-reads_example = super_fast_hash-reads (109 ∷ 97 ∷ []) (105 ∷ 116 ∷ 101 ∷ 114 ∷ [])

-- Keys and values in four bytes, the targets as a string.
abbrev info : Marshals ℕ ℕ (List ℕ)
info = record {
  key_marshal = word_marshal 4;
  value1_marshal = word_marshal 4;
  value2_marshal = word_marshal 4;
  value3_marshal = string_marshal;
}

abbrev word : ℕ → List ℕ
word = (word_marshal 4).marshal

info-ReadsBack : ReadsBack info 3 258 7 (9 ∷ [])
info-ReadsBack = record {
  key = word_marshal-IsReadBack 4 3 (omega arith);
  value1 = word_marshal-IsReadBack 4 258 (omega arith);
  value2 = word_marshal-IsReadBack 4 7 (omega arith);
  value3 = string_marshal-IsReadBack (9 ∷ []);
}

update_str-Stores_example :
    Returns
      (update_str
        (typed_statetable info)
        pair
        (word 3)
        (word 258)
        (word 7)
        (string_marshal.marshal (9 ∷ [])))
      (λ t'.
        Stores pair 3 (258, 7, 9 ∷ []) t'
        × (contains_str (typed_statetable info) t' (word 3) ≡ ok true)
        × (get_str (typed_statetable info) t' (word 3) ≡ ok (row_str info (258, 7, 9 ∷ []))))
update_str-Stores_example =
    update_str-Stores info pair-WellFormed 3 258 7 (9 ∷ []) info-ReadsBack (omega arith)

-- The row of the key 3, with the low byte of each number first.
row_bytes : row_str info (258, 7, 9 ∷ []) ≡ 2 ∷ 1 ∷ 0 ∷ 0 ∷ 7 ∷ 0 ∷ 0 ∷ 0 ∷ 9 ∷ []
unfolding word_marshal string_marshal
row_bytes = refl
