-- ===== src/Query/Filters.antt =====
-- The parsers of one condition: `parseFilterWithPrefix`, `parseFtsFilter` and `parseCondition` of
-- internal/query/params.go. A table's columns are a test, as the source asks its map.
pub mod RoundTrip
use rest_trans.Prelude.{
  ℕ, suc, ◌+◌, ◌-◌, Bool, true, false, not, ◌||◌, Option, none, some, List, [], ◌∷◌, ◌++◌, Text,
  codes, text_eq, has_prefix, index_byte, split_n, take, drop, ltb, if◌then◌else◌, Result, ok, err,
  column_not_found, invalid_fts, invalid_condition, invalid_operator,
}
use rest_trans.Query.Operator.{Operator, eq, valid_operator}
use rest_trans.Query.Params.{Filter, FtsFilter}

abbrev pub Columns : Type 0
Columns = Text → Bool

-- A value and what has been read off it.
pub record Modified : Type 0 where
  pub rest : Text
  pub modifier : Text

abbrev cut_modifier : Text → ℕ → ℕ → Modified
cut_modifier value left right =
    let potential = take (right - (left + 1)) (drop (left + 1) value) in
    if text_eq potential (codes "any") || text_eq potential (codes "all")
    then record { rest = take left value ++ drop (right + 1) value; modifier = potential }
    else record { rest = value; modifier = [] }

abbrev find_close : Text → ℕ → Option ℕ → Modified
find_close value left none = record { rest = value; modifier = [] }
find_close value left (some right) =
    if ltb left right then cut_modifier value left right else record { rest = value; modifier = [] }

abbrev find_open : Text → Option ℕ → Modified
find_open value (some (suc i)) = find_close value (suc i) (index_byte b')' value)
find_open value _ = record { rest = value; modifier = [] }

-- `any` or `all` in parentheses, taken out of the value.
unfoldable pub take_modifier : Text → Modified
unfolding index_byte text_eq
take_modifier value = find_open value (index_byte b'(' value)

pub record Operand : Type 0 where
  pub op : Operator
  pub val : Text

abbrev operand_of : Text → Text → Option Operator → Operand
operand_of value after (some o) = record { op = o; val = after }
operand_of value after none = record { op = eq; val = value }

abbrev split_operand : Text → Option ℕ → Operand
split_operand value (some (suc i)) =
    operand_of value (drop (suc i + 1) value) (valid_operator (take (suc i) value))
split_operand value _ = record { op = eq; val = value }

-- The operator in front of the first dot, where it is one; else `eq` and the whole value.
unfoldable pub take_operator : Text → Operand
unfolding index_byte valid_operator
take_operator value = split_operand value (index_byte b'.' value)

abbrev pub filter_of : Text → Bool → Text → Filter
filter_of key negate value =
    let m = take_modifier value in
    let o = take_operator m.rest in
    record { column = key; operator = o.op; value = o.val; negate = negate; modifier = m.modifier }

unfoldable pub parse_filter_with_prefix : Text → Text → Bool → Columns → Result Filter
unfolding has_prefix take_modifier take_operator
parse_filter_with_prefix key value negate columns =
    if not (columns key)
    then err (column_not_found key)
    else if has_prefix (codes "not.") value
    then ok (filter_of key (not negate) (drop 4 value))
    else ok (filter_of key negate value)

unfoldable pub parse_filter : Text → Text → Columns → Result Filter
unfolding parse_filter_with_prefix
parse_filter key value columns = parse_filter_with_prefix key value false columns

abbrev pub fts_at : Text → Bool → Columns → Option ℕ → Result FtsFilter
fts_at value negate columns (some (suc i)) =
    let col = take (suc i) value in
    if not (columns col)
    then err (column_not_found col)
    else ok (record { column = col; search_term = drop (suc i + 1) value; negate = negate })
fts_at value negate columns _ = err (invalid_fts value)

abbrev pub fts_from : Text → Bool → Columns → Result FtsFilter
fts_from value negate columns = fts_at value negate columns (index_byte b'.' value)

unfoldable pub parse_fts_filter : Text → Columns → Result FtsFilter
unfolding has_prefix index_byte
parse_fts_filter value columns =
    if has_prefix (codes "not.") value
    then fts_from (drop 4 value) true columns
    else fts_from value false columns

-- A filter of a group has no modifier.
abbrev pub condition : Text → Operator → Text → Bool → Filter
condition col op val negate = record {
  column = col;
  operator = op;
  value = val;
  negate = negate;
  modifier = [];
}

abbrev pub known_operator : Text → Text → Text → Bool → Option Operator → Result Filter
known_operator col op val negate (some o) = ok (condition col o val negate)
known_operator col op val negate none = err (invalid_operator op)

abbrev pub condition_of : Text → Bool → Columns → List Text → Result Filter
condition_of cond negate columns (col ∷ val ∷ []) =
    if not (columns col) then err (column_not_found col) else ok (condition col eq val negate)
condition_of cond negate columns (col ∷ op ∷ val ∷ _) =
    if not (columns col)
    then err (column_not_found col)
    else known_operator col op val negate (valid_operator op)
condition_of cond negate columns _ = err (invalid_condition cond)

abbrev pub condition_from : Text → Bool → Columns → Result Filter
condition_from cond negate columns = condition_of cond negate columns (split_n b'.' 3 cond)

unfoldable pub parse_condition : Text → Columns → Result Filter
unfolding has_prefix split_n valid_operator
parse_condition cond columns =
    if has_prefix (codes "not.") cond
    then condition_from (drop 4 cond) true columns
    else condition_from cond false columns
