-- ===== src/Response/Range/Window.antt =====
-- The bounds of a page.
use rest_trans.Prelude.{ℕ, ◌+◌, ◌-◌, ◌^◌, ◌<◌, ◌≡◌, refl, true, ltb, if◌then◌else◌, arith}
use rest_trans.Prelude.Int.{
  ℤ, pos, ◌+ℤ◌, ◌-ℤ◌, ◌≤ℤ◌, int64, leb_ℤ, pos_part, +ℤ_pos, -ℤ_pos, int64_pos,
}
use rest_trans.Response.Range.{last_row, calculate_range, set_range_headers, set_content_range}
use rest_trans.Response.{Headers}

-- How many rows of `total` the page of `limit` rows from `offset` on holds.
pub page_rows : ℕ → ℕ → ℕ → ℕ
page_rows limit offset total = if ltb (total - offset) limit then total - offset else limit

last_row_lem :
    (limit offset total : ℕ)
    → 0 < limit
    → offset < total
    → offset + limit < 2 ^ 63
    → total < 2 ^ 63
    → last_row (pos limit) (pos offset) (pos total)
      ≡ pos (offset + page_rows limit offset total - 1)
unfolding last_row page_rows
last_row_lem limit offset total h k w u =
    rw
      (
        +ℤ_pos offset limit,
        int64_pos (offset + limit) w,
        -ℤ_pos (offset + limit) 1 (omega arith),
        int64_pos (offset + limit - 1) (omega arith),
        -ℤ_pos total 1 (omega arith),
        int64_pos (total - 1) (omega arith),
      )
      (ground arith)

-- A page of at least one row that begins below the total, and whose end does not overflow an int64,
-- is announced by `Content-Range` as its first row, the last of the rows that the limit and the
-- total leave it, and the total.
pub set_range_headers-page :
    (hs : Headers) (limit offset total : ℕ)
    → 0 < limit
    → offset < total
    → offset + limit < 2 ^ 63
    → total < 2 ^ 63
    → set_range_headers hs (pos limit) (pos offset) (pos total)
      ≡ set_content_range hs
          (pos offset)
          (pos (offset + page_rows limit offset total - 1))
          (pos total)
unfolding set_range_headers
set_range_headers-page hs limit offset total h k w u =
    let some_limit : leb_ℤ (pos 0) (pos limit) ≡ true = ground arith in
    rw (some_limit, last_row_lem limit offset total h k w u) refl

-- Whatever the limit, where the offset is not negative, its sum with the limit does not overflow,
-- and there is a row, the range that is calculated begins at 0 or later, does not end before it
-- begins, and ends at the total at most.
calculate_range-within :
    (limit offset : ℤ) (total : ℕ)
    → pos 0 ≤ℤ offset
    → 0 < total
    → pos_part offset + pos_part limit < 2 ^ 63
    → (pos 0 ≤ℤ (calculate_range limit offset (pos total)).0)
      × ((calculate_range limit offset (pos total)).0
          ≤ℤ (calculate_range limit offset (pos total)).1)
      × ((calculate_range limit offset (pos total)).1 ≤ℤ pos total)
unfolding calculate_range int64 ◌+ℤ◌ ◌-ℤ◌
calculate_range-within limit offset total h k w = ground arith
