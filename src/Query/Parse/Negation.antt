-- ===== src/Query/Parse/Negation.antt =====
-- What `Parse` makes of a negated group.
use rest_trans.Prelude.{
  ℕ, zero, suc, ◌+◌, List, [], ◌∷◌, ◌≡◌, refl, Option, none, some, Text, codes, length, trim,
  trim_space, is_empty, text_eq, has_prefix, inl, inr, Bool-cases, ◌++◌, Result, ok, err, ◌>>=◌,
}
use rest_trans.Query.Params.{
  Filter, FilterOp, logical_and, logical_or, LogicalFilter, group, Logicals, nil, Params, negated,
  snoc,
}
use rest_trans.Query.Scan.{split_logical_conditions}
use rest_trans.Query.Filters.{Columns, parse_condition}
use rest_trans.Query.Logical.{
  Nested, nested_group, add_filter, add_group, SubParser, add_part, logical_part, logical_parts,
  parse_logical, parse_logical_filter,
}
use rest_trans.Query.Parse.{apply_pair, add_logical}

-- The result with the operator of its group forgotten.
abbrev forget : Result LogicalFilter → Result LogicalFilter
forget m = m >>= λ l. ok (negated l)

agree_after :
    {A : Type 0} (m : Result A) (f g : A → LogicalFilter) (k : LogicalFilter → Result LogicalFilter)
    → ((a : A) → forget (k (f a)) ≡ forget (k (g a)))
    → forget ((m >>= λ a. ok (f a)) >>= k) ≡ forget ((m >>= λ a. ok (g a)) >>= k)
agree_after (ok a) f g k h = h a
agree_after (err e) f g k h = refl

-- The loop does the same on two groups that differ in their operators.
module _ (sub : SubParser) (columns : Columns) (x y : FilterOp) where
  abbrev loop : LogicalFilter → List Text → Result LogicalFilter
  loop = logical_parts sub columns

  add_part-forget :
      (rest : List Text) (part : Text) (o : Option Nested) (fs : List Filter) (ls : Logicals)
      → ((gs : List Filter) (ms : Logicals)
          → forget (loop (group x gs ms) rest) ≡ forget (loop (group y gs ms) rest))
      → forget (add_part sub columns (group x fs ls) part o >>= λ l. loop l rest)
        ≡ forget (add_part sub columns (group y fs ls) part o >>= λ l. loop l rest)
  unfolding add_part
  add_part-forget rest part none fs ls ih =
      agree_after (parse_condition part columns) (add_filter (group x fs ls))
        (add_filter (group y fs ls)) (λ l. loop l rest) (λ c. ih (fs ++ c ∷ []) ls)
  add_part-forget rest part (some n) fs ls ih =
      agree_after (sub n.op n.inner) (λ l. add_group (group x fs ls) (negated l))
        (λ l. add_group (group y fs ls) (negated l)) (λ l. loop l rest)
        (λ l. ih fs (snoc ls (negated l)))

  loop-forget :
      (parts : List Text) (fs : List Filter) (ls : Logicals)
      → forget (loop (group x fs ls) parts) ≡ forget (loop (group y fs ls) parts)
  unfolding logical_parts logical_part
  loop-forget [] fs ls = refl
  loop-forget (p ∷ ps) fs ls = elim (Bool-cases (is_empty (trim_space p))) [
    | inl e ↦ rw e (loop-forget ps fs ls)
    | inr e ↦ rw e (
        add_part-forget ps (trim_space p) (nested_group (trim_space p)) fs ls
          (λ gs ms. loop-forget ps gs ms))
  ]

parse_logical-forget :
    (fuel : ℕ) (x y : FilterOp) (v : Text) (columns : Columns)
    → forget (parse_logical fuel x v columns) ≡ forget (parse_logical fuel y v columns)
unfolding parse_logical
parse_logical-forget zero x y v columns = refl
parse_logical-forget (suc fuel) x y v columns =
    loop-forget (λ o t. parse_logical fuel o t columns) columns x y
      (split_logical_conditions (trim (codes "()") v)) [] nil

agree_then :
    (m n : Result LogicalFilter) (p : Params)
    → forget m ≡ forget n
    → (m >>= λ l. ok (add_logical p (negated l))) ≡ (n >>= λ l. ok (add_logical p (negated l)))
agree_then (ok (group o fs ls)) (ok (group o' fs' ls')) p h = cc
agree_then (ok (group o fs ls)) (err e) p h = cc
agree_then (err e) (ok (group o fs ls)) p h = cc
agree_then (err e) (err e') p h = cc

-- `_not.or=(…)` is parsed as `_not.and=(…)` is, for every text, table and earlier parameters: the
-- operator of a negated group is lost.
pub negated_or-eq-and :
    (columns : Columns) (p : Params) (value : Text)
    → apply_pair columns p (codes "_not.or") value ≡ apply_pair columns p (codes "_not.and") value
unfolding apply_pair text_eq has_prefix parse_logical_filter
negated_or-eq-and columns p value =
    agree_then (parse_logical_filter logical_or value columns)
      (parse_logical_filter logical_and value columns) p
      (parse_logical-forget (length value + 1) logical_or logical_and value columns)
