-- ===== src/Query/Parse.antt =====
-- `splitQuery` and `Parse` of internal/query/params.go. Go visits a map's entries in no fixed
-- order: `parse_pairs` takes them in the order of its list, and `parse` in any that `visit` makes.
pub mod Known
pub mod Negation
use rest_trans.Prelude.{
  ℕ, ◌+◌, true, Option, none, some, List, [], ◌∷◌, ◌++◌, Text, codes, text_eq, has_prefix,
  index_byte, split, replace_all, is_empty, take, drop, if◌then◌else◌, Result, ok, err,
  invalid_limit, invalid_offset, ◌>>=◌,
}
use rest_trans.Prelude.Int.{ℤ, atoi}
use rest_trans.Query.Params.{
  Filter, FtsFilter, logical_and, logical_or, LogicalFilter, Params, no_params, snoc, negated,
}
use rest_trans.Query.Filters.{Columns, parse_filter, parse_filter_with_prefix, parse_fts_filter}
use rest_trans.Query.Logical.{parse_logical_filter}
use rest_trans.Query.Select.{parse_select}
use rest_trans.Query.Order.{parse_order}

abbrev pub Pairs : Type 0
Pairs = List (Text × Text)

-- The write to the map: a key that is there already gets the new value behind an `&`.
unfoldable pub put_pair : Text → Text → Pairs → Pairs
unfolding text_eq
put_pair key val [] = (key, val) ∷ []
put_pair key val ((k, v) ∷ ps) =
    if text_eq k key then (k, v ++ codes "&" ++ val) ∷ ps else (k, v) ∷ put_pair key val ps

-- The three replacements, in their order.
unfoldable pub unescape : Text → Text
unfolding replace_all
unescape v =
    replace_all (replace_all (replace_all v (codes "+") (codes " ")) (codes "%2C") (codes ","))
      (codes "%22") (codes "\"")

abbrev pub add_pair : Pairs → Text → Option ℕ → Pairs
add_pair ps pair none = ps
add_pair ps pair (some i) = put_pair (take i pair) (unescape (drop (i + 1) pair)) ps

unfoldable pub query_pairs : Pairs → List Text → Pairs
unfolding put_pair unescape index_byte
query_pairs ps [] = ps
query_pairs ps (pair ∷ rest) = query_pairs (add_pair ps pair (index_byte b'=' pair)) rest

unfoldable pub split_query : Text → Pairs
unfolding query_pairs split
split_query query = query_pairs [] (split b'&' query)

abbrev pub set_limit : Params → Text → Option ℤ → Result Params
set_limit p value none = err (invalid_limit value)
set_limit p value (some v) = ok (record p { range = record p.range { limit = v } })

abbrev pub set_offset : Params → Text → Option ℤ → Result Params
set_offset p value none = err (invalid_offset value)
set_offset p value (some v) = ok (record p { range = record p.range { offset = v } })

abbrev pub add_logical : Params → LogicalFilter → Params
add_logical p lf = record p { logicals = snoc p.logicals lf }

abbrev pub add_filter : Params → Filter → Params
add_filter p f = record p { filters = p.filters ++ f ∷ [] }

abbrev pub add_fts : Params → FtsFilter → Params
add_fts p f = record p { fts_filters = p.fts_filters ++ f ∷ [] }

abbrev pub set_select : Params → Text → Params
set_select p value =
    let s = parse_select value in
    record p { select = s.cols; embeds = s.embeds; aggregates = s.aggregates }

-- The keys that begin with `_not.`, without that prefix.
unfoldable pub apply_not : Columns → Params → Text → Text → Result Params
unfolding text_eq snoc parse_logical_filter parse_filter_with_prefix
apply_not columns p subkey value =
    if text_eq subkey (codes "or")
    then (do lf ← parse_logical_filter logical_or value columns; ok (add_logical p (negated lf)))
    else if text_eq subkey (codes "and")
    then (do lf ← parse_logical_filter logical_and value columns; ok (add_logical p (negated lf)))
    else do f ← parse_filter_with_prefix subkey value true columns; ok (add_filter p f)

-- One round of the loop: the switch on the key.
unfoldable pub apply_pair : Columns → Params → Text → Text → Result Params
unfolding apply_not parse_select parse_order has_prefix atoi parse_filter parse_fts_filter
apply_pair columns p key value =
    if text_eq key (codes "_select")
    then ok (set_select p value)
    else if text_eq key (codes "_order")
    then ok (record p { order = parse_order value })
    else if text_eq key (codes "_limit")
    then set_limit p value (atoi value)
    else if text_eq key (codes "_offset")
    then set_offset p value (atoi value)
    else if text_eq key (codes "_count")
    then ok (record p { count = value })
    else if text_eq key (codes "_or")
    then (do lf ← parse_logical_filter logical_or value columns; ok (add_logical p lf))
    else if text_eq key (codes "_and")
    then (do lf ← parse_logical_filter logical_and value columns; ok (add_logical p lf))
    else if text_eq key (codes "_fts")
    then (do f ← parse_fts_filter value columns; ok (add_fts p f))
    else if has_prefix (codes "_not.") key
    then apply_not columns p (drop 5 key) value
    else do f ← parse_filter key value columns; ok (add_filter p f)

unfoldable pub parse_pairs : Columns → Params → Pairs → Result Params
unfolding apply_pair
parse_pairs columns p [] = ok p
parse_pairs columns p ((key, value) ∷ rest) = do
  p' ← apply_pair columns p key value
  parse_pairs columns p' rest

abbrev pub trim_question : Text → Text
trim_question q = if has_prefix (codes "?") q then drop 1 q else q

unfoldable pub parse : (Pairs → Pairs) → Text → Columns → Result Params
unfolding parse_pairs split_query
parse visit raw columns =
    if is_empty raw
    then ok no_params
    else parse_pairs columns no_params (visit (split_query (trim_question raw)))
