-- ===== src/Prelude/Int/Digits.antt =====
-- Numbers are read as they are printed, and texts are cut where they were joined.
use rest_trans.Prelude.Tests.{ltb, ◌==◌, Bool-cases}
use rest_trans.Prelude.Lists.{All}
use rest_trans.Prelude.Strings.{Text, decimal, digits_of, contains_byte, split, cons_first}
use rest_trans.Prelude.Int.{ℤ, pos, is_digit, read_digits, magnitude, positive, atoi}
use Prim.Native.Nat.{ℕ, zero, suc, ◌+◌, ◌-◌, ◌*◌, ◌/◌, ◌%◌, ◌^◌, ◌<◌}
use mathlib.Core.Path.{◌≡◌, refl, ◌∙◌}
use mathlib.Core.Logic.{◌≢◌, inl, inr}
use mathlib.Core.Bool.{true, false}
use mathlib.Core.List.{List, [], ◌∷◌, ◌++◌}
use mathlib.Core.Option.{Option, none, some}
use native.Mathlib.Omega.{arith}

-- Every character is a digit.
abbrev pub IsDigits : Text → Type 0
IsDigits = All (λ c. is_digit c ≡ true)

digits_of-IsDigits : (fuel n : ℕ) (acc : Text) → IsDigits acc → IsDigits (digits_of fuel n acc)
unfolding digits_of
digits_of-IsDigits zero n acc h = h
digits_of-IsDigits (suc fuel) n acc h = elim (Bool-cases (ltb n 10)) [
  | inl small ↦ rw small (ground arith, h)
  | inr large ↦ rw large (digits_of-IsDigits fuel (n / 10) ((n % 10 + 48) ∷ acc) (ground arith, h))
]

read_digits-digits_of :
    (fuel n : ℕ) (acc : Text) → n < fuel → read_digits 0 (digits_of fuel n acc) ≡ read_digits n acc
unfolding digits_of read_digits
read_digits-digits_of zero n acc h = absurd (omega arith)
read_digits-digits_of (suc fuel) n acc h = elim (Bool-cases (ltb n 10)) [
  | inl small ↦
      let digit : is_digit (n + 48) ≡ true = ground arith in
      let same : 0 * 10 + (n + 48 - 48) ≡ n = omega arith in rw (small, digit, same)
  | inr large ↦
      let digit : is_digit (n % 10 + 48) ≡ true = ground arith in
      let same : n / 10 * 10 + (n % 10 + 48 - 48) ≡ n = omega arith in
      rw large (
        read_digits-digits_of fuel (n / 10) ((n % 10 + 48) ∷ acc) (ground arith) ∙ rw (digit, same))
]

pub decimal-IsDigits : (n : ℕ) → IsDigits (decimal n)
unfolding decimal
decimal-IsDigits n = digits_of-IsDigits (n + 1) n [] tt

-- A text of digits has no other character.
pub IsDigits-without :
    (c : ℕ) (s : Text) → is_digit c ≡ false → IsDigits s → contains_byte c s ≡ false
IsDigits-without c [] h d = refl
IsDigits-without c (x ∷ s) h (d, ds) = ground (arith, IsDigits-without c s h ds)

read_digits-decimal : (n : ℕ) → read_digits 0 (decimal n) ≡ some n
unfolding decimal read_digits
read_digits-decimal n = read_digits-digits_of (n + 1) n [] (omega arith)

atoi_digits :
    (s : Text) (n : ℕ) → IsDigits s → read_digits 0 s ≡ some n → s ≢ [] → atoi s ≡ positive (some n)
unfolding atoi magnitude
atoi_digits [] n h r e = absurd (e refl)
atoi_digits (c ∷ s) n (d, ds) r e =
    let minus : (c == b'-') ≡ false = ground arith in
    let plus : (c == b'+') ≡ false = ground arith in rw (minus, plus, r)

digits_of_ne : (fuel n : ℕ) (acc : Text) → n < fuel → digits_of fuel n acc ≢ []
unfolding digits_of
digits_of_ne zero n acc h e = absurd (omega arith)
digits_of_ne (suc fuel) n acc h e = ground (arith, digits_of_ne fuel (n / 10) ((n % 10 + 48) ∷ acc))

decimal_ne : (n : ℕ) → decimal n ≢ []
unfolding decimal
decimal_ne n = digits_of_ne (n + 1) n [] (omega arith)

-- `Atoi` reads what `%d` prints of a number that an int holds.
pub atoi-decimal : (n : ℕ) → n < 2 ^ 63 → atoi (decimal n) ≡ some (pos n)
atoi-decimal n h =
    let fits : ltb n (2 ^ 63) ≡ true = ground arith in
    atoi_digits (decimal n) n (decimal-IsDigits n) (read_digits-decimal n) (decimal_ne n) ∙ rw fits

-- A text with no separator is one part.
pub split_one : (c : ℕ) (s : Text) → contains_byte c s ≡ false → split c s ≡ s ∷ []
unfolding split
split_one c [] h = refl
split_one c (x ∷ s) h =
    let here : (x == c) ≡ false = ground arith in
    let later : contains_byte c s ≡ false = ground arith in rw (here, split_one c s later)

-- A text is cut at its first separator.
pub split_first :
    (c : ℕ) (s t : Text) → contains_byte c s ≡ false → split c (s ++ c ∷ t) ≡ s ∷ split c t
unfolding split
split_first c [] t h = let here : (c == c) ≡ true = ground arith in rw here
split_first c (x ∷ s) t h =
    let here : (x == c) ≡ false = ground arith in
    let later : contains_byte c s ≡ false = ground arith in rw (here, split_first c s t later)

cons_first-without :
    (c x : ℕ) (ts : List Text)
    → (x == c) ≡ false
    → All (λ t. contains_byte c t ≡ false) ts
    → All (λ t. contains_byte c t ≡ false) (cons_first x ts)
cons_first-without c x [] h a = (ground arith, tt)
cons_first-without c x (t ∷ ts) h (a, as') = (ground arith, as')

-- No part holds the separator.
pub split-without : (c : ℕ) (s : Text) → All (λ t. contains_byte c t ≡ false) (split c s)
unfolding split
split-without c [] = (refl, tt)
split-without c (x ∷ s) = elim (Bool-cases (x == c)) [
  | inl e ↦ rw e (refl, split-without c s)
  | inr e ↦ rw e (cons_first-without c x (split c s) e (split-without c s))
]

positive-pos : (o : Option ℕ) {a : ℤ} → positive o ≡ some a → (n : ℕ) × (a ≡ pos n) × (n < 2 ^ 63)
positive-pos none h = cc
positive-pos (some n) h = (n, ground arith, ground arith)

-- A text without a minus sign is read as a number that is not negative.
pub atoi-pos :
    (s : Text) {a : ℤ}
    → contains_byte b'-' s ≡ false
    → atoi s ≡ some a
    → (n : ℕ) × (a ≡ pos n) × (n < 2 ^ 63)
unfolding atoi
atoi-pos [] h e = cc
atoi-pos (c ∷ s) h e =
    let minus : (c == b'-') ≡ false = ground arith in
    elim (Bool-cases (c == b'+')) [
      | inl plus ↦ positive-pos (magnitude s) (rw (minus, plus) at e)
      | inr plus ↦ positive-pos (magnitude (c ∷ s)) (rw (minus, plus) at e)
    ]
