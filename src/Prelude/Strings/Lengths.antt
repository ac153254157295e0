-- ===== src/Prelude/Strings/Lengths.antt =====
-- What the functions on texts do to lengths, and what equality of texts decides.
use Prim.Native.Nat.{ℕ, ◌≤◌}
use mathlib.Core.Path.{◌≡◌, refl}
use mathlib.Core.Logic.{◌↔◌}
use mathlib.Core.Bool.{Bool, true}
use mathlib.Core.List.{[], ◌∷◌, reverse, reverse-cons}
use native.Mathlib.Omega.{arith}
use rest_trans.Prelude.Lists.{length, length-append}
use rest_trans.Prelude.Strings.{Text, text_eq, trim_left, trim_func, trim, trim_space}

pub text_eq_iff : (s t : Text) → (text_eq s t ≡ true) ↔ (s ≡ t)
unfolding text_eq
text_eq_iff (x ∷ xs) (y ∷ ys) = ground (arith, text_eq_iff xs ys)
text_eq_iff _ _ = ground arith

pub text_eq_refl : (s : Text) → text_eq s s ≡ true
text_eq_refl s = (text_eq_iff s s).1 refl

pub length-reverse : (s : Text) → length (reverse s) ≡ length s
length-reverse [] = refl
length-reverse (c ∷ s) =
    rw reverse-cons (omega (arith, length-append (reverse s) (c ∷ []), length-reverse s))

trim_left-length : (p : ℕ → Bool) (s : Text) → length (trim_left p s) ≤ length s
unfolding trim_left
trim_left-length p [] = omega arith
trim_left-length p (c ∷ s) = ground (arith, trim_left-length p s)

trim_func-length : (p : ℕ → Bool) (s : Text) → length (trim_func p s) ≤ length s
unfolding trim_func
trim_func-length p s =
    let front = trim_left p s in
    omega (
      arith,
      length-reverse (trim_left p (reverse front)),
      trim_left-length p (reverse front),
      length-reverse front,
      trim_left-length p s,
    )

pub trim-length : (cutset s : Text) → length (trim cutset s) ≤ length s
unfolding trim
trim-length cutset s = trim_func-length _ s

pub trim_space-length : (s : Text) → length (trim_space s) ≤ length s
unfolding trim_space
trim_space-length s = trim_func-length _ s
