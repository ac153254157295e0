-- ===== src/Response/Tests.antt =====
-- Runs of internal/response/response.go.
use rest_trans.Prelude.{◌+◌, ◌-◌, ◌≡◌, refl, some, none, [], ◌∷◌, codes, arith}
use rest_trans.Prelude.Int.{pos, negsuc}
use rest_trans.Response.{json_null, write_json}
use rest_trans.Response.Range.{parse_range_header, set_content_range, set_range_headers, last_row}
use rest_trans.Response.Range.Bounds.{range_header, parse_range_header-print}
use rest_trans.Response.Range.Window.{page_rows, set_range_headers-page}

read_range : parse_range_header (codes "items=5-9") ≡ some (pos 5, pos 5)
unfolding parse_range_header
read_range = refl

other_unit : parse_range_header (codes "bytes=5-9") ≡ none
unfolding parse_range_header
other_unit = refl

-- The whole range of an int has one row more than an int holds.
widest :
    parse_range_header (codes "items=0-9223372036854775807")
    ≡ some (negsuc 9223372036854775807, pos 0)
unfolding parse_range_header
widest = refl

-- Behind the total, the last row stands before the first.
beyond : last_row (pos 10) (pos 50) (pos 20) ≡ pos 19
unfolding last_row
beyond = refl

no_rows : write_json [] [] (codes "id" ∷ []) [] ≡ record {
  status = 200;
  headers = (codes "Content-Type", codes "application/json") ∷ [];
  content = json_null;
}
unfolding write_json
no_rows = refl

parse_range_header-print_example :
    parse_range_header (range_header 20 39) ≡ some (pos (39 - 20 + 1), pos 20)
parse_range_header-print_example = parse_range_header-print 20 39 (omega arith) (omega arith)

set_range_headers-page_example :
    set_range_headers [] (pos 10) (pos 5) (pos 12)
    ≡ set_content_range [] (pos 5) (pos (5 + page_rows 10 5 12 - 1)) (pos 12)
set_range_headers-page_example =
    set_range_headers-page [] 10 5 12 (omega arith) (omega arith) (omega arith) (omega arith)
