-- ===== src/Query/InValues.antt =====
-- `parseInValues` of internal/query/builder.go: the values of an `in` filter.
pub mod Quotes
use rest_trans.Prelude.{
  ℕ, ◌+◌, List, [], ◌∷◌, ◌++◌, Text, codes, trim, trim_space, is_empty, ◌==◌, if◌then◌else◌,
}

-- The loop's variables. A quote adds to `depth`, and nothing takes from it.
pub record Reader : Type 0 where
  pub values : List Text
  pub depth : ℕ
  pub current : Text

abbrev pub keep : Reader → ℕ → Reader
keep r ch = record r { current = r.current ++ ch ∷ [] }

unfoldable pub read_step : Reader → ℕ → Reader
unfolding trim_space
read_step r ch =
    if ch == b'"'
    then record r { depth = r.depth + 1 }
    else if ch == b','
    then (if r.depth == 0
        then record r { values = r.values ++ trim_space r.current ∷ []; current = [] }
        else keep r ch)
    else keep r ch

unfoldable pub read_all : Reader → Text → Reader
unfolding read_step
read_all r [] = r
read_all r (ch ∷ rest) = read_all (read_step r ch) rest

abbrev pub unread : Reader
unread = record { values = []; depth = 0; current = [] }

abbrev pub last_value : Reader → List Text
last_value r = if is_empty r.current then r.values else r.values ++ trim_space r.current ∷ []

unfoldable pub parse_in_values : Text → List Text
unfolding read_all trim trim_space
parse_in_values value = last_value (read_all unread (trim (codes "()") value))
