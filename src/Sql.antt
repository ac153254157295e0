-- ===== src/Sql.antt =====
-- SQL text with its placeholders `$n` kept apart. internal/query/builder.go writes it with
-- `fmt.Sprintf`; `render` is the text that it builds.
pub mod Numbering
use rest_trans.Prelude.{
  ℕ, zero, suc, ◌+◌, Bool, true, false, ◌&&◌, List, [], ◌∷◌, ◌++◌, Text, codes, is_empty, decimal,
}
use Prim.Native.String.{String}

pub data Piece : Type 0 where
  txt : Text → Piece
  arg : ℕ → Piece

abbrev pub Sql : Type 0
Sql = List Piece

abbrev pub raw : Text → Sql
raw t = txt t ∷ []

abbrev pub lit : String → Sql
lit s = raw (codes s)

-- `Placeholder(idx)` of builder.go.
abbrev pub placeholder : ℕ → Sql
placeholder n = arg n ∷ []

abbrev pub render_piece : Piece → Text
render_piece (txt t) = t
render_piece (arg n) = codes "$" ++ decimal n

unfoldable pub render : Sql → Text
unfolding decimal
render [] = []
render (p ∷ ps) = render_piece p ++ render ps

-- The numbers of the placeholders that the builder writes, in the order of the text. A `$n` in a raw
-- piece, such as a column of `_order`, is none of them.
abbrev pub placeholders : Sql → List ℕ
placeholders [] = []
placeholders (txt t ∷ ps) = placeholders ps
placeholders (arg n ∷ ps) = n ∷ placeholders ps

-- `query == ""`.
abbrev pub is_blank : Sql → Bool
is_blank [] = true
is_blank (txt t ∷ ps) = is_empty t && is_blank ps
is_blank (arg n ∷ ps) = false

-- `strings.Join`.
unfoldable pub join_sql : Sql → List Sql → Sql
join_sql sep [] = []
join_sql sep (s ∷ []) = s
join_sql sep (s ∷ t ∷ ts) = s ++ (sep ++ join_sql sep (t ∷ ts))

-- The numbers from `first` on, `n` of them.
abbrev pub count_from : ℕ → ℕ → List ℕ
count_from first zero = []
count_from first (suc n) = first ∷ count_from (first + 1) n
