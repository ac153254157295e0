-- ===== src/Query/Logical.antt =====
-- `parseLogicalFilter` of internal/query/params.go. The source calls itself on a shorter text; the
-- model counts those calls down from a fuel.
pub mod Fuel
use rest_trans.Prelude.{
  ℕ, zero, suc, ◌+◌, Option, none, some, List, [], ◌∷◌, ◌++◌, Text, codes, text_eq, has_prefix,
  split_n, trim, trim_space, is_empty, drop, length, if◌then◌else◌, Result, ok, err, out_of_fuel,
  ◌>>=◌,
}
use rest_trans.Query.Params.{
  Filter, FilterOp, logical_and, logical_or, LogicalFilter, group, nil, snoc, negated,
}
use rest_trans.Query.Scan.{split_logical_conditions}
use rest_trans.Query.Filters.{Columns, parse_condition}

-- `or` and `and`, the only names of a group.
unfoldable pub group_op : Text → Option FilterOp
unfolding text_eq
group_op s =
    if text_eq s (codes "and")
    then some logical_and
    else if text_eq s (codes "or")
    then some logical_or
    else none

-- A negated group inside a group: its operator and its text.
pub record Nested : Type 0 where
  pub op : FilterOp
  pub inner : Text

abbrev nested_of : Option FilterOp → Text → Option Nested
nested_of none inner = none
nested_of (some op) inner = some (record { op = op; inner = inner })

abbrev nested_parts : List Text → Option Nested
nested_parts (word ∷ inner ∷ []) = nested_of (group_op word) inner
nested_parts _ = none

unfoldable pub nested_group : Text → Option Nested
unfolding has_prefix split_n group_op
nested_group part =
    if has_prefix (codes "not.") part then nested_parts (split_n b'.' 2 (drop 4 part)) else none

abbrev pub add_filter : LogicalFilter → Filter → LogicalFilter
add_filter (group op fs ls) f = group op (fs ++ f ∷ []) ls

abbrev pub add_group : LogicalFilter → LogicalFilter → LogicalFilter
add_group (group op fs ls) l = group op fs (snoc ls l)

-- What the recursive call of the source is, to its loop.
abbrev pub SubParser : Type 0
SubParser = FilterOp → Text → Result LogicalFilter

unfoldable pub add_part :
    SubParser → Columns → LogicalFilter → Text → Option Nested → Result LogicalFilter
unfolding snoc parse_condition
add_part sub columns lf part (some n) = do l ← sub n.op n.inner; ok (add_group lf (negated l))
add_part sub columns lf part none = do f ← parse_condition part columns; ok (add_filter lf f)

-- One round of the loop, on a part with its space trimmed.
unfoldable pub logical_part : SubParser → Columns → LogicalFilter → Text → Result LogicalFilter
unfolding add_part nested_group
logical_part sub columns lf part =
    if is_empty part then ok lf else add_part sub columns lf part (nested_group part)

unfoldable pub logical_parts :
    SubParser → Columns → LogicalFilter → List Text → Result LogicalFilter
unfolding logical_part trim_space
logical_parts sub columns lf [] = ok lf
logical_parts sub columns lf (part ∷ rest) = do
  lf' ← logical_part sub columns lf (trim_space part)
  logical_parts sub columns lf' rest

unfoldable pub parse_logical : ℕ → FilterOp → Text → Columns → Result LogicalFilter
unfolding logical_parts trim split_logical_conditions
parse_logical zero op value columns = err out_of_fuel
parse_logical (suc fuel) op value columns =
    logical_parts (λ o s. parse_logical fuel o s columns) columns (group op [] nil)
      (split_logical_conditions (trim (codes "()") value))

-- The fuel that the length of the text gives is enough (Logical/Fuel).
unfoldable pub parse_logical_filter : FilterOp → Text → Columns → Result LogicalFilter
unfolding parse_logical
parse_logical_filter op value columns = parse_logical (length value + 1) op value columns
