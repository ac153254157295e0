-- ===== src/Response/Range/Bounds.antt =====
-- What the header `Range` can say.
use rest_trans.Prelude.{
  ℕ, ◌+◌, ◌-◌, ◌^◌, ◌≤◌, ◌<◌, ◌≡◌, refl, ◌⊎◌, inl, inr, true, false, Bool-cases, some, Option-cases,
  ltb, ltb→lt, subst, is_empty, List, [], ◌∷◌, ◌++◌, All, Text, codes, text_eq, split, split_n,
  contains_byte, decimal, arith,
}
use rest_trans.Prelude.Int.{
  ℤ, pos, negsuc, ◌+ℤ◌, ◌-ℤ◌, ◌≤ℤ◌, int64, ltb_ℤ, atoi, +ℤ_pos, -ℤ_pos, int64_pos,
}
use rest_trans.Prelude.Int.Digits.{
  atoi-decimal, decimal-IsDigits, IsDigits-without, split_one, split_first, split-without, atoi-pos,
}
use rest_trans.Response.Range.{span_of, bounds_of, unit_of, parse_range_header}

some_injective {ℓ} : {A : Type ℓ} {a b : A} → some a ≡ some b → a ≡ b
some_injective h = cc

-- The header of a client that asks for the rows `first` to `last`.
pub range_header : ℕ → ℕ → Text
range_header first last = codes "items=" ++ (decimal first ++ b'-' ∷ decimal last)

split_bounds :
    (first last : ℕ)
    → split b'-' (decimal first ++ b'-' ∷ decimal last) ≡ decimal first ∷ decimal last ∷ []
split_bounds first last =
    let plain = λ (n : ℕ). IsDigits-without b'-' (decimal n) refl (decimal-IsDigits n) in
    rw (
      split_first b'-' (decimal first) (decimal last) (plain first),
      split_one b'-' (decimal last) (plain last),
    )

span_of-pos :
    (first last : ℕ)
    → first ≤ last
    → last + 1 < 2 ^ 63
    → span_of (some (pos first)) (some (pos last)) ≡ some (pos (last - first + 1), pos first)
span_of-pos first last h k =
    rw
      (
        -ℤ_pos last first h,
        int64_pos (last - first) (omega arith),
        +ℤ_pos (last - first) 1,
        int64_pos (last - first + 1) (omega arith),
      )
      (ground arith)

-- A header that asks for the rows `first` to `last`, as a client prints it, is read as the limit and the
-- offset of just these rows, where an int holds their number.
pub parse_range_header-print :
    (first last : ℕ)
    → first ≤ last
    → last + 1 < 2 ^ 63
    → parse_range_header (range_header first last) ≡ some (pos (last - first + 1), pos first)
unfolding parse_range_header range_header
parse_range_header-print first last h k =
    rw (split_bounds first last, atoi-decimal first (omega arith), atoi-decimal last (omega arith))
      (span_of-pos first last h k)

-- A limit of one row or more, or the limit that is left where the number of rows overflows.
pub record IsSpan (r : ℤ × ℤ) : Type 0 where
  pub limit_within : (pos 1 ≤ℤ r.0) ⊎ (r.0 ≡ negsuc (2 ^ 63 - 1))
  pub offset_within : pos 0 ≤ℤ r.1

-- The number of the rows `start` to `start + n`, as the machine leaves it.
rows_IsSpan : (start n : ℕ) → n < 2 ^ 63 → IsSpan (int64 (pos n +ℤ pos 1), pos start)
rows_IsSpan start n h = elim (Bool-cases (ltb (n + 1) (2 ^ 63))) [
  | inl fits ↦
      rw (+ℤ_pos n 1, int64_pos (n + 1) (ltb→lt _ _ fits))
        (record { limit_within = inl (omega arith); offset_within = omega arith })
  | inr wraps ↦
      let top : n + 1 ≡ 2 ^ 63 = ground arith in
      rw (+ℤ_pos n 1, top)
        (record {
          limit_within = inr (unfold int64 in unfold ◌-ℤ◌ in refl);
          offset_within = omega arith;
        })
]

span_of-IsSpan :
    (start end : ℕ) {r : ℤ × ℤ}
    → end < 2 ^ 63
    → span_of (some (pos start)) (some (pos end)) ≡ some r
    → IsSpan r
span_of-IsSpan start end h e = elim (Bool-cases (ltb end start)) [
  | inl less ↦
      let none_here : ltb_ℤ (pos end) (pos start) ≡ true = ground arith in cc (rw none_here at e)
  | inr more ↦
      let there : ltb_ℤ (pos end) (pos start) ≡ false = ground arith in
      subst IsSpan
        (some_injective
          (rw (there, -ℤ_pos end start (ground arith), int64_pos (end - start) (omega arith)) at e))
        (rows_IsSpan start (end - start) (omega arith))
]

bounds_of-IsSpan :
    (parts : List Text) {r : ℤ × ℤ}
    → All (λ t. contains_byte b'-' t ≡ false) parts
    → bounds_of parts ≡ some r
    → IsSpan r
bounds_of-IsSpan [] a e = cc
bounds_of-IsSpan (s ∷ []) a e = cc
bounds_of-IsSpan (s ∷ t ∷ u ∷ ts) a e = cc
bounds_of-IsSpan (s ∷ t ∷ []) (a, (b, _)) e = elim (Option-cases (atoi s)) [
  | inl f ↦ cc (rw f at e)
  | inr (x, f) ↦ elim (Option-cases (atoi t)) [
    | inl g ↦ cc (rw (f, g) at e)
    | inr (y, g) ↦
        let (start, p, _) = atoi-pos s a f in
        let (end, q, k) = atoi-pos t b g in span_of-IsSpan start end k (rw (f, g, p, q) at e)
  ]
]

unit_of-IsSpan : (parts : List Text) {r : ℤ × ℤ} → unit_of parts ≡ some r → IsSpan r
unfolding split
unit_of-IsSpan [] e = cc
unit_of-IsSpan (n ∷ []) e = cc
unit_of-IsSpan (n ∷ s ∷ t ∷ ts) e = cc
unit_of-IsSpan (n ∷ s ∷ []) e = elim (Bool-cases (text_eq n (codes "items"))) [
  | inl items ↦ bounds_of-IsSpan (split b'-' s) (split-without b'-' s) (rw items at e)
  | inr other ↦ cc (rw other at e)
]

-- Where a header is read as a range, the offset is not negative, and the limit is 1 or more, or it
-- is -2^63: the number of rows of the widest range does not fit an int.
parse_range_header-IsSpan :
    (header : Text) {r : ℤ × ℤ} → parse_range_header header ≡ some r → IsSpan r
unfolding parse_range_header
parse_range_header-IsSpan header e = elim (Bool-cases (is_empty header)) [
  | inl empty ↦ cc (rw empty at e)
  | inr some_header ↦ unit_of-IsSpan (split_n b'=' 2 header) (rw some_header at e)
]
