-- ===== src/Util/Marshal.antt =====
-- `Marshal` of src/util/common.h: values as strings. A plain value is the bytes of its memory, on a
-- machine that puts the low byte first; the messages of protobuf are not used by the program.
use mathlib.Core.Path.{subst}
use mathlib.Core.List.{append-nil}
use maiter_p.Base.{
  ℕ, zero, suc, ◌+◌, ◌*◌, ◌/◌, ◌%◌, ◌^◌, ◌<◌, ◌≡◌, refl, List, [], ◌∷◌, ◌++◌, Run, ok, fault,
  out_of_range, ◌>>=◌, length, arith, ap,
}

-- `marshal` and `unmarshal`; reading past the end of the string is a fault.
pub record Marshal {ℓ} (A : Type ℓ) : Type ℓ where
  pub marshal : A → List ℕ
  pub unmarshal : List ℕ → Run A

-- What is marshalled is read back.
abbrev pub IsReadBack {ℓ} : {A : Type ℓ} → Marshal A → A → Type ℓ
IsReadBack m a = m.unmarshal (m.marshal a) ≡ ok a

-- The memory of a word of `n` bytes.
unfoldable pub word_bytes : ℕ → ℕ → List ℕ
word_bytes zero w = []
word_bytes (suc n) w = w % 256 ∷ word_bytes n (w / 256)

-- `*reinterpret_cast<const T*>(s.data)`
unfoldable pub read_word : ℕ → List ℕ → Run ℕ
read_word zero s = ok 0
read_word (suc n) [] = fault out_of_range
read_word (suc n) (c ∷ s) = do w ← read_word n s; ok (c + 256 * w)

-- The general `Marshal`, at an unsigned type of `n` bytes.
unfoldable pub word_marshal : ℕ → Marshal ℕ
unfolding word_bytes read_word
word_marshal n = record { marshal = word_bytes n; unmarshal = read_word n }

-- `Marshal` at `string`.
unfoldable pub string_marshal : Marshal (List ℕ)
string_marshal = record { marshal = λ t. t; unmarshal = ok }

length-word_bytes : (n w : ℕ) → length (word_bytes n w) ≡ n
unfolding word_bytes
length-word_bytes zero w = refl
length-word_bytes (suc n) w = ap suc (length-word_bytes n (w / 256))

-- A word that fits its bytes is read back, whatever stands behind them.
read_word-word_bytes :
    (n w : ℕ) (more : List ℕ) → w < 256 ^ n → read_word n (word_bytes n w ++ more) ≡ ok w
unfolding read_word word_bytes
read_word-word_bytes zero w more lt = ap ok (omega arith)
read_word-word_bytes (suc n) w more lt =
    rw (read_word-word_bytes n (w / 256) more (omega arith)) (ap ok (omega arith))

pub word_marshal-IsReadBack : (n w : ℕ) → w < 256 ^ n → IsReadBack (word_marshal n) w
unfolding word_marshal
word_marshal-IsReadBack n w lt =
    subst (λ s. read_word n s ≡ ok w) (append-nil _) (read_word-word_bytes n w [] lt)

pub string_marshal-IsReadBack : (s : List ℕ) → IsReadBack string_marshal s
unfolding string_marshal
string_marshal-IsReadBack s = refl
