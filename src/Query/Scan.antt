-- ===== src/Query/Scan.antt =====
-- `splitLogicalConditions` and `splitSelectParts` of internal/query/params.go: cut at the commas
-- that stand outside every parenthesis.
pub mod Join
use rest_trans.Prelude.{
  ℕ, zero, suc, Bool, true, false, ◌&&◌, List, [], ◌∷◌, ◌++◌, Text, is_empty, ◌==◌, if◌then◌else◌,
}
use rest_trans.Prelude.Int.{ℤ, pos, negsuc}

-- `depth++` and `depth--`. A closing parenthesis too many makes the depth negative.
abbrev pub inc : ℤ → ℤ
inc (pos n) = pos (suc n)
inc (negsuc zero) = pos 0
inc (negsuc (suc n)) = negsuc n

abbrev pub dec : ℤ → ℤ
dec (pos zero) = negsuc 0
dec (pos (suc n)) = pos n
dec (negsuc n) = negsuc (suc n)

abbrev pub is_zero : ℤ → Bool
is_zero (pos zero) = true
is_zero _ = false

-- The loop's variables.
pub record Scanner : Type 0 where
  pub parts : List Text
  pub depth : ℤ
  pub current : Text

abbrev pub write : Scanner → ℕ → Scanner
write s ch = record s { current = s.current ++ ch ∷ [] }

abbrev pub cut : Scanner → Scanner
cut s = record s { parts = s.parts ++ s.current ∷ []; current = [] }

unfoldable pub scan_step : Scanner → ℕ → Scanner
scan_step s ch =
    if ch == b'('
    then write (record s { depth = inc s.depth }) ch
    else if ch == b')'
    then write (record s { depth = dec s.depth }) ch
    else if ch == b',' && is_zero s.depth
    then cut s
    else write s ch

unfoldable pub scan : Scanner → Text → Scanner
unfolding scan_step
scan s [] = s
scan s (ch ∷ rest) = scan (scan_step s ch) rest

abbrev pub start : Scanner
start = record { parts = []; depth = pos 0; current = [] }

abbrev pub finish : Scanner → List Text
finish s = if is_empty s.current then s.parts else s.parts ++ s.current ∷ []

unfoldable pub split_logical_conditions : Text → List Text
unfolding scan
split_logical_conditions s = finish (scan start s)

unfoldable pub split_select_parts : Text → List Text
unfolding scan
split_select_parts s = finish (scan start s)
