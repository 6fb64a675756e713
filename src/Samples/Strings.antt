-- ===== src/Samples/Strings.antt =====
-- Strings that are taken apart.
use maiter_p.Base.{◌≡◌, [], ◌∷◌}
use maiter_p.Util.StringPiece.{strip}
use maiter_p.Util.Trimming.{trim-strip}
use maiter_p.Util.Config.{trim}

-- The test of the source: spaces around, and one inside.
trim-strip_example : trim (9 ∷ 97 ∷ 32 ∷ 98 ∷ 10 ∷ []) ≡ strip (9 ∷ 97 ∷ 32 ∷ 98 ∷ 10 ∷ [])
trim-strip_example = trim-strip (9 ∷ 97 ∷ 32 ∷ 98 ∷ 10 ∷ [])
