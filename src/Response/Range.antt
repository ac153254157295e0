-- ===== src/Response/Range.antt =====
-- The ranges of internal/response/response.go: the header `Range` that is read, and the headers
-- that say which part of a result is sent.
pub mod Bounds
pub mod Window
use rest_trans.Prelude.{
  ℕ, ◌≡◌, Bool, true, false, ◌&&◌, Option, none, some, List, [], ◌∷◌, ◌++◌, Text, codes, text_eq,
  is_empty, split, split_n, if◌then◌else◌,
}
use rest_trans.Prelude.Int.{ℤ, pos, ◌+ℤ◌, ◌-ℤ◌, ltb_ℤ, leb_ℤ, int64, atoi, itoa}
use rest_trans.Response.{Headers, set_header}

unfoldable pub set_content_range : Headers → ℤ → ℤ → ℤ → Headers
unfolding set_header itoa
set_content_range hs from to total =
    let range = itoa from ++ (codes "-" ++ (itoa to ++ (codes "/" ++ itoa total))) in
    let hs' =
      set_header (codes "Range-Unit") (codes "items")
        (set_header (codes "Content-Range") range hs) in
    if ltb_ℤ (pos 0) total then set_header (codes "X-Total-Count") (itoa total) hs' else hs'

-- The last row of a page, in SetRangeHeaders.
unfoldable pub last_row : ℤ → ℤ → ℤ → ℤ
unfolding ◌+ℤ◌ ◌-ℤ◌ int64
last_row limit offset total =
    let last = int64 (int64 (offset +ℤ limit) -ℤ pos 1) in
    if ltb_ℤ (pos 0) total && leb_ℤ total last then int64 (total -ℤ pos 1) else last

unfoldable pub set_range_headers : Headers → ℤ → ℤ → ℤ → Headers
unfolding set_content_range last_row
set_range_headers hs limit offset total =
    if leb_ℤ (pos 0) limit
    then set_content_range hs offset (last_row limit offset total) total
    else hs

-- Both bounds are read, or there is no range.
abbrev pub span_of : Option ℤ → Option ℤ → Option (ℤ × ℤ)
span_of (some start) (some end) =
    if ltb_ℤ end start then none else some (int64 (int64 (end -ℤ start) +ℤ pos 1), start)
span_of _ _ = none

abbrev pub bounds_of : List Text → Option (ℤ × ℤ)
bounds_of (start ∷ end ∷ []) = span_of (atoi start) (atoi end)
bounds_of _ = none

abbrev pub unit_of : List Text → Option (ℤ × ℤ)
unit_of (name ∷ range ∷ []) =
    if text_eq name (codes "items") then bounds_of (split b'-' range) else none
unit_of _ = none

-- `ParseRangeHeader`: the limit and the offset, and `none` where it says (-1, 0, false).
unfoldable pub parse_range_header : Text → Option (ℤ × ℤ)
unfolding split split_n text_eq atoi ◌+ℤ◌ ◌-ℤ◌ int64
parse_range_header header = if is_empty header then none else unit_of (split_n b'=' 2 header)

-- `CalculateRange`.
unfoldable pub calculate_range : ℤ → ℤ → ℤ → ℤ × ℤ
unfolding ◌+ℤ◌ int64
calculate_range limit offset total =
    if ltb_ℤ limit (pos 0)
    then (pos 0, total)
    else let to = int64 (offset +ℤ limit) in
      let to' = if ltb_ℤ (pos 0) total && ltb_ℤ total to then total else to in
      if ltb_ℤ total offset then (total, total) else (offset, to')

abbrev default_of : ℤ → Option ℤ → ℤ
default_of default none = default
default_of default (some v) = v

-- `MustParseInt`.
unfoldable pub must_parse_int : Text → ℤ → ℤ
unfolding atoi
must_parse_int s default = if is_empty s then default else default_of default (atoi s)

-- `MaxInt` and `MinInt`.
unfoldable pub max_int : ℤ → ℤ → ℤ
max_int a b = if ltb_ℤ b a then a else b

unfoldable pub min_int : ℤ → ℤ → ℤ
min_int a b = if ltb_ℤ a b then a else b
