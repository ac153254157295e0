-- ===== src/Query/Operator/Names.antt =====
-- The names of the operators: each is read back, and nothing else is read.
use rest_trans.Prelude.{
  ◌≡◌, ◌↔◌, refl, ap, ◌∙◌, Option, none, some, Text, text_eq, if◌then◌else◌, inl, inr, Bool-cases,
}
use rest_trans.Prelude.Strings.Lengths.{text_eq_iff}
use rest_trans.Query.Operator.{
  Operator, eq, neq, gt, gte, lt, lte, like, ilike, in_list, is, match, imatch, contains, contained,
  overlaps, adjacent, strictly_left, strictly_right, not_strictly_left, not_strictly_right, name,
  valid_operator,
}

valid_operator-name : (o : Operator) → valid_operator (name o) ≡ some o
unfolding valid_operator
valid_operator-name eq = refl
valid_operator-name _ = refl

-- One test of the chain: either it passes, or the rest of the chain decides.
named :
    (s : Text) (a o : Operator) (rest : Option Operator)
    → (rest ≡ some o → s ≡ name o)
    → (if text_eq s (name a) then some a else rest) ≡ some o
    → s ≡ name o
named s a o rest later h = elim (Bool-cases (text_eq s (name a))) [
  | inl e ↦
      let same : some a ≡ some o = rw e at h in
      let a_is : a ≡ o = cc in (text_eq_iff s (name a)).0 e ∙ ap name a_is
  | inr e ↦ later (rw e at h)
]

name-valid_operator : (s : Text) (o : Operator) → valid_operator s ≡ some o → s ≡ name o
unfolding valid_operator
name-valid_operator s o = named s eq o _ (
    named s neq o _ (
      named s gt o _ (
        named s gte o _ (
          named s lt o _ (
            named s lte o _ (
              named s like o _ (
                named s ilike o _ (
                  named s in_list o _ (
                    named s is o _ (
                      named s match o _ (
                        named s imatch o _ (
                          named s contains o _ (
                            named s contained o _ (
                              named s overlaps o _ (
                                named s adjacent o _ (
                                  named s strictly_left o _ (
                                    named s strictly_right o _ (
                                      named s not_strictly_left o _ (
                                        named s not_strictly_right o none
                                          (λ h. cc))))))))))))))))))))

-- A word is read as an operator exactly where it is that operator's name.
valid_operator_iff : (s : Text) (o : Operator) → (valid_operator s ≡ some o) ↔ (s ≡ name o)
valid_operator_iff s o = (name-valid_operator s o, λ e. ap valid_operator e ∙ valid_operator-name o)
