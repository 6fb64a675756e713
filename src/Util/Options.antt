-- ===== src/Util/Options.antt =====
-- What the lines of a configuration file do, src/util/configfile.h.
use maiter_p.Base.{
  ℕ, ◌≡◌, refl, ap, ◌∙◌, Bool, true, false, none, some, List, [], ◌∷◌, ◌++◌, ◌==◌, Run, ok, fault,
  assertion, ◌>>=◌, if◌then◌else◌, arith, Bool-cases, inl, inr,
}
use maiter_p.Util.StringPiece.{is_delim}
use maiter_p.Util.Splitting.{no_delim, next_part-last, next_part-more}
use maiter_p.Util.Config.{
  fix_line, skip_delims, or_end, token_of, strtok, Conf, same, find_option, is_comment, with_value,
  with_key, read_option, set_read, load_line, load_lines, loadconfig, get_config_option_string,
  trim,
}

fix_line-end : (w : List ℕ) → fix_line (w ++ 10 ∷ []) ≡ w
unfolding fix_line
fix_line-end [] = refl
fix_line-end (c ∷ []) = refl
fix_line-end (c ∷ d ∷ w) = ap (λ r. c ∷ r) (fix_line-end (d ∷ w))

no_delim-first :
    (delims : List ℕ) (c : ℕ) (w : List ℕ)
    → no_delim delims (c ∷ w) ≡ true
    → is_delim delims c ≡ false
unfolding no_delim
no_delim-first delims c w h = elim (Bool-cases (is_delim delims c)) [
  | inl d ↦ absurd cc
  | inr d ↦ d
]

skip_delims-clear :
    (delims : List ℕ) (c : ℕ) (w : List ℕ)
    → is_delim delims c ≡ false
    → skip_delims delims (c ∷ w) ≡ c ∷ w
unfolding skip_delims
skip_delims-clear delims c w h = rw (h, skip_delims) refl

strtok-more :
    (delims : List ℕ) (c : ℕ) (w : List ℕ) (d : ℕ) (rest : List ℕ)
    → no_delim delims (c ∷ w) ≡ true
    → is_delim delims d ≡ true
    → strtok delims (c ∷ w ++ d ∷ rest) ≡ some (c ∷ w, rest)
unfolding strtok token_of or_end
strtok-more delims c w d rest h is =
    ap (token_of delims) (skip_delims-clear delims c (w ++ d ∷ rest) (no_delim-first delims c w h))
    ∙ ap (λ r. some (r.0, or_end r.1)) (next_part-more delims (c ∷ w) d rest h is)

strtok-last :
    (delims : List ℕ) (c : ℕ) (w : List ℕ)
    → no_delim delims (c ∷ w) ≡ true
    → strtok delims (c ∷ w) ≡ some (c ∷ w, [])
unfolding strtok token_of or_end
strtok-last delims c w h =
    ap (token_of delims) (skip_delims-clear delims c w (no_delim-first delims c w h))
    ∙ ap (λ r. some (r.0, or_end r.1)) (next_part-last delims (c ∷ w) h)

-- Not empty, and without the sign between keys and values.
unfoldable pub is_side : List ℕ → Bool
is_side [] = false
is_side (c ∷ w) = no_delim (61 ∷ []) (c ∷ w)

read_option-sides :
    (key value : List ℕ)
    → is_side key ≡ true
    → is_side value ≡ true
    → read_option (key ++ 61 ∷ value) ≡ some (trim key, trim value)
unfolding read_option with_key with_value is_side is_delim
read_option-sides [] value h i = absurd (cc h)
read_option-sides (c ∷ key) [] h i = absurd (cc i)
read_option-sides (c ∷ key) (d ∷ value) h i =
    ap with_key (strtok-more (61 ∷ []) c key 61 (d ∷ value) h refl)
    ∙ ap (with_value (c ∷ key)) (strtok-last (61 ∷ []) d value i)

-- A line with a key and a value around one equals sign, both not empty and without another, and the key
-- not a comment, sets the trimmed key to the trimmed value and leaves every other option.
pub load_line-sets :
    (conf : Conf) (key value name : List ℕ)
    → is_comment key ≡ false
    → is_side key ≡ true
    → is_side value ≡ true
    → find_option name (load_line conf ((key ++ 61 ∷ value) ++ 10 ∷ []))
      ≡ (if same name (trim key) then some (trim value) else find_option name conf)
unfolding load_line find_option set_read is_side is_comment
load_line-sets conf [] value name c h i = absurd (cc h)
load_line-sets conf (a ∷ key) value name c h i =
    ap (λ s. find_option name (if is_comment s then conf else set_read (read_option s) conf))
      (fix_line-end (a ∷ key ++ 61 ∷ value))
    ∙ ap
        (λ b.
          find_option name
            (if b then conf else set_read (read_option (a ∷ key ++ 61 ∷ value)) conf))
        c
    ∙ ap (λ r. find_option name (set_read r conf)) (read_option-sides (a ∷ key) value h i)

pub load_lines-append :
    (conf : Conf) (lines : List (List ℕ)) (line : List ℕ)
    → load_lines conf (lines ++ line ∷ []) ≡ load_line (load_lines conf lines) line
unfolding load_lines
load_lines-append conf [] line = refl
load_lines-append conf (l ∷ lines) line = load_lines-append (load_line conf l) lines line

==_refl : (c : ℕ) → (c == c) ≡ true
==_refl c = ground arith

same_refl : (a : List ℕ) → same a a ≡ true
unfolding same
same_refl [] = refl
same_refl (c ∷ a) = rw (==_refl c) (same_refl a)

-- The option that the last line of a file sets is what get_config_option_string answers for it after
-- loadconfig, whatever the lines before: the key not a comment, and both sides not empty and without an
-- equals sign.
pub loadconfig-last :
    (lines : List (List ℕ)) (key value : List ℕ)
    → is_comment key ≡ false
    → is_side key ≡ true
    → is_side value ≡ true
    → (loadconfig (some (lines ++ ((key ++ 61 ∷ value) ++ 10 ∷ []) ∷ [])) >>= λ conf.
        get_config_option_string conf (trim key))
      ≡ ok (trim value)
unfolding loadconfig get_config_option_string
loadconfig-last lines key value c h i =
    ap (λ conf. get_config_option_string conf (trim key))
      (load_lines-append [] lines ((key ++ 61 ∷ value) ++ 10 ∷ []))
    ∙ ap (λ o. elim o as (λ x. Run (List ℕ)) [ none ↦ fault assertion | some v ↦ ok v ])
        (load_line-sets (load_lines [] lines) key value (trim key) c h i
          ∙ ap (λ b. if b then some (trim value) else find_option (trim key) (load_lines [] lines))
              (same_refl (trim key)))
