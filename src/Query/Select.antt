-- ===== src/Query/Select.antt =====
-- `parseSelect` of internal/query/params.go: columns, embedded tables and aggregates.
use rest_trans.Prelude.{
  ℕ, suc, ◌+◌, ◌-◌, Bool, ◌||◌, Option, some, List, [], ◌∷◌, ◌++◌, map, Text, codes, text_eq,
  has_suffix, index_byte, split, trim_space, to_lower, is_empty, take, drop, length, if◌then◌else◌,
}
use rest_trans.Query.Params.{Embed, Aggregate}
use rest_trans.Query.Scan.{split_select_parts}

pub record Selection : Type 0 where
  pub cols : List Text
  pub embeds : List Embed
  pub aggregates : List Aggregate

-- The map `aggregateFuncs`.
unfoldable pub is_aggregate : Text → Bool
unfolding text_eq
is_aggregate f =
    text_eq f (codes "count")
    || text_eq f (codes "sum")
    || text_eq f (codes "avg")
    || text_eq f (codes "min")
    || text_eq f (codes "max")
    || text_eq f (codes "count_distinct")
    || text_eq f (codes "array_agg")
    || text_eq f (codes "string_agg")

abbrev add_col : Selection → Text → Selection
add_col s part = record s { cols = s.cols ++ part ∷ [] }

abbrev add_aggregate : Selection → Text → Text → Selection
add_aggregate s func col = record s {
  aggregates =
      s.aggregates
      ++ (record {
        func = func;
        col = col;
        alias = if text_eq col (codes "*") then func else func ++ codes "_" ++ col;
      }
          ∷ []);
}

abbrev embed_columns : Text → List Text
embed_columns inner =
    if is_empty inner || text_eq inner (codes "*") then [] else map trim_space (split b',' inner)

abbrev add_embed : Selection → Text → Text → Selection
add_embed s table inner = record s {
  embeds = s.embeds ++ (record { table = table; select = embed_columns inner } ∷ []);
}

-- `name(inner)`, with the index of its parenthesis.
abbrev add_call : Selection → Text → ℕ → Selection
add_call s part i =
    let func = to_lower (take i part) in
    let inner = trim_space (take (length part - 1 - (i + 1)) (drop (i + 1) part)) in
    if is_aggregate func then add_aggregate s func inner else add_embed s (take i part) inner

abbrev add_closed : Selection → Text → Option ℕ → Selection
add_closed s part (some (suc i)) = add_call s part (suc i)
add_closed s part _ = add_col s part

-- One round of the loop, on a part with its space trimmed.
unfoldable pub select_part : Selection → Text → Selection
unfolding is_aggregate text_eq has_suffix index_byte split trim_space to_lower
select_part s part =
    if is_empty part
    then s
    else if has_suffix (codes ")") part
    then add_closed s part (index_byte b'(' part)
    else add_col s part

unfoldable pub select_parts : Selection → List Text → Selection
unfolding select_part
select_parts s [] = s
select_parts s (part ∷ rest) = select_parts (select_part s (trim_space part)) rest

abbrev pub no_selection : Selection
no_selection = record { cols = []; embeds = []; aggregates = [] }

unfoldable pub parse_select : Text → Selection
unfolding select_parts split_select_parts
parse_select value = select_parts no_selection (split_select_parts value)
