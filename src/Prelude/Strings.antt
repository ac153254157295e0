-- ===== src/Prelude/Strings.antt =====
-- Text as its code points, and the functions of Go's `strings` that the program calls.
pub mod Lengths
use Prim.Native.Nat.{ℕ, zero, suc, ◌+◌, ◌-◌, ◌/◌, ◌%◌}
use Prim.Native.Char.{code}
use Prim.Native.String.{String}
use mathlib.Core.Bool.{Bool, true, false, ◌&&◌, ◌||◌}
use mathlib.Core.Option
use mathlib.Core.Option.{Option, none, some}
use mathlib.Core.List.{List, [], ◌∷◌, ◌++◌, map, reverse}
use rest_trans.Prelude.Tests.{ltb, leb, ◌==◌, if◌then◌else◌}
use rest_trans.Prelude.Lists.{length, take, drop}

abbrev pub Text : Type 0
Text = List ℕ

-- A literal's code points. Every literal of the model is ASCII.
abbrev pub codes : String → Text
codes String.[] = []
codes (String.◌∷◌ c s) = code c ∷ codes s

-- `==` on strings.
unfoldable pub text_eq : Text → Text → Bool
text_eq [] [] = true
text_eq (x ∷ xs) (y ∷ ys) = x == y && text_eq xs ys
text_eq _ _ = false

abbrev pub is_empty : Text → Bool
is_empty [] = true
is_empty (x ∷ xs) = false

-- `strings.HasPrefix(s, prefix)`, the prefix first.
unfoldable pub has_prefix : Text → Text → Bool
has_prefix [] s = true
has_prefix (p ∷ ps) [] = false
has_prefix (p ∷ ps) (x ∷ xs) = p == x && has_prefix ps xs

-- `strings.HasSuffix(s, suffix)`, the suffix first.
unfoldable pub has_suffix : Text → Text → Bool
unfolding has_prefix
has_suffix p s = has_prefix (reverse p) (reverse s)

-- `strings.Contains(s, substr)`, the substring first.
unfoldable pub contains : Text → Text → Bool
unfolding has_prefix
contains p [] = is_empty p
contains p (x ∷ xs) = has_prefix p (x ∷ xs) || contains p xs

-- `strings.IndexByte`, with `none` for -1. For a one-byte needle `strings.Index` is the same.
unfoldable pub index_byte : ℕ → Text → Option ℕ
index_byte c [] = none
index_byte c (x ∷ xs) = if x == c then some 0 else Option.map suc (index_byte c xs)

abbrev pub cons_first : ℕ → List Text → List Text
cons_first x [] = (x ∷ []) ∷ []
cons_first x (t ∷ ts) = (x ∷ t) ∷ ts

-- `strings.Split` by a one-byte separator.
unfoldable pub split : ℕ → Text → List Text
split c [] = [] ∷ []
split c (x ∷ xs) = let rest = split c xs in if x == c then [] ∷ rest else cons_first x rest

-- `strings.SplitN` by a one-byte separator: at most `n` parts, the last one unsplit.
unfoldable pub split_n : ℕ → ℕ → Text → List Text
unfolding index_byte
split_n c zero s = []
split_n c (suc zero) s = s ∷ []
split_n c (suc (suc n)) s = elim (index_byte c s) [
  | none ↦ s ∷ []
  | some i ↦ take i s ∷ split_n c (suc n) (drop (i + 1) s)
]

abbrev pub contains_byte : ℕ → Text → Bool
contains_byte c [] = false
contains_byte c (x ∷ xs) = x == c || contains_byte c xs

unfoldable pub trim_left : (ℕ → Bool) → Text → Text
trim_left p [] = []
trim_left p (x ∷ xs) = if p x then trim_left p xs else x ∷ xs

-- `strings.TrimFunc`: both ends.
unfoldable pub trim_func : (ℕ → Bool) → Text → Text
unfolding trim_left
trim_func p s = reverse (trim_left p (reverse (trim_left p s)))

-- `strings.Trim(s, cutset)`.
unfoldable pub trim : Text → Text → Text
unfolding trim_func
trim cutset s = trim_func (λ c. contains_byte c cutset) s

-- `unicode.IsSpace`.
unfoldable pub is_space : ℕ → Bool
is_space c =
    leb 9 c && leb c 13
    || c == 32
    || c == 0x85
    || c == 0xA0
    || c == 0x1680
    || leb 0x2000 c && leb c 0x200A
    || c == 0x2028
    || c == 0x2029
    || c == 0x202F
    || c == 0x205F
    || c == 0x3000

unfoldable pub trim_space : Text → Text
unfolding trim_func is_space
trim_space s = trim_func is_space s

-- `unicode.ToLower` and `unicode.ToUpper` as far as the program can tell their results apart: it
-- compares them with ASCII words only, and two other letters lower to ASCII.
unfoldable pub lower : ℕ → ℕ
lower c =
    if leb b'A' c && leb c b'Z'
    then c + 32
    else if c == 0x130
    then b'i'
    else if c == 0x212A
    then b'k'
    else c

unfoldable pub upper : ℕ → ℕ
upper c = if leb b'a' c && leb c b'z' then c - 32 else c

unfoldable pub to_lower : Text → Text
unfolding lower
to_lower s = map lower s

unfoldable pub to_upper : Text → Text
unfolding upper
to_upper s = map upper s

-- What `strings.ReplaceAll` does from a place where `skip` bytes of a match are still to pass.
unfoldable pub replace_from : Text → Text → ℕ → Text → Text
unfolding has_prefix
replace_from old new skip [] = []
replace_from old new (suc skip) (x ∷ xs) = replace_from old new skip xs
replace_from old new zero (x ∷ xs) = elim (has_prefix old (x ∷ xs)) [
  | true ↦ new ++ replace_from old new (length old - 1) xs
  | false ↦ x ∷ replace_from old new 0 xs
]

unfoldable pub replace_all : Text → Text → Text → Text
unfolding replace_from
replace_all s old new = replace_from old new 0 s

-- `strings.Join`.
unfoldable pub join : Text → List Text → Text
join sep [] = []
join sep (t ∷ []) = t
join sep (t ∷ u ∷ ts) = t ++ (sep ++ join sep (u ∷ ts))

unfoldable pub digits_of : ℕ → ℕ → Text → Text
digits_of zero n acc = acc
digits_of (suc fuel) n acc =
    let more = digits_of fuel (n / 10) ((n % 10 + 48) ∷ acc) in
    if ltb n 10 then (n + 48) ∷ acc else more

-- `%d` of a number that is not negative; it has at most `n + 1` digits.
unfoldable pub decimal : ℕ → Text
unfolding digits_of
decimal n = digits_of (n + 1) n []
