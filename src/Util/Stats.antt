-- ===== src/Util/Stats.antt =====
-- `Stats` of src/util/common.h, a map from strings to `double`, and `StringPrintf` of
-- src/util/stringpiece.cc. The map is the list of its entries in the order in which it gives them.
use maiter_p.Base.{
  ℕ, Bool, true, false, Option, none, some, List, [], ◌∷◌, ◌++◌, if◌then◌else◌, take,
}
use maiter_p.Util.Config.{same}
pub mod Merge

-- 0, `+` and the text that `%.2f` makes.
pub record Sums {ℓ} (R : Type ℓ) : Type ℓ where
  pub zero_r : R
  pub plus : R → R → R
  pub two_places : R → List ℕ

abbrev pub Stats {ℓ} : Type ℓ → Type ℓ
Stats R = List (List ℕ × R)

-- `StringPrintf` and `VStringPrintf`, of the text that the format gives: it is cut to the buffer.
unfoldable pub string_printf : List ℕ → List ℕ
string_printf s = take 32767 s

module _ {ℓ} {R : Type ℓ} ⦃sums : Sums R⦄ where
  -- `p_[key]`, which puts a 0 under a new key.
  unfoldable pub at_key : Stats R → List ℕ → Stats R × R
  unfolding same
  at_key [] key = ((key, sums.zero_r) ∷ [], sums.zero_r)
  at_key ((k, v) ∷ p) key =
      let (p', found) = at_key p key in if same key k then ((k, v) ∷ p, v) else ((k, v) ∷ p', found)

  -- `p_[key] += v`
  unfoldable pub add_at : Stats R → List ℕ → R → Stats R
  unfolding same
  add_at [] key v = (key, sums.plus sums.zero_r v) ∷ []
  add_at ((k, w) ∷ p) key v =
      let later = add_at p key v in if same key k then (k, sums.plus w v) ∷ p else (k, w) ∷ later

  -- `Merge`
  unfoldable pub merge : Stats R → Stats R → Stats R
  unfolding add_at
  merge p [] = p
  merge p ((k, v) ∷ other) = merge (add_at p k v) other

  -- `ToString`, with the format `%s -- %s : %.2f` and a newline.
  unfoldable pub to_string : Stats R → List ℕ → List ℕ
  unfolding string_printf
  to_string [] prefix = []
  to_string ((k, v) ∷ p) prefix =
      string_printf
        (prefix ++ 32 ∷ 45 ∷ 45 ∷ 32 ∷ (k ++ 32 ∷ 58 ∷ 32 ∷ (sums.two_places v ++ 10 ∷ [])))
      ++ to_string p prefix
