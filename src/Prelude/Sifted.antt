-- ===== src/Prelude/Sifted.antt =====
-- What a selection keeps of a list, said without a test.
use mathlib.Core.List.{List, [], ◌∷◌}

-- `ys` are those of `xs` that `Keep` holds of, in their order; `Drop` holds of the others.
pub data Sifted {A : Type 0} (Keep Drop : A → Type 0) : List A → List A → Type 0 where
  done : Sifted Keep Drop [] []
  keep :
      (x : A) (xs ys : List A)
      → Keep x
      → Sifted Keep Drop xs ys
      → Sifted Keep Drop (x ∷ xs) (x ∷ ys)
  drop : (x : A) (xs ys : List A) → Drop x → Sifted Keep Drop xs ys → Sifted Keep Drop (x ∷ xs) ys
