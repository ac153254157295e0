-- ===== src/Transaction/Staging/Conditions.antt =====
-- What the middleware reads off the query string: `extractWhereClause` and `extractIDParam`.
use rest_trans.Prelude.{
  ℕ, ◌+◌, Option, none, some, List, [], ◌∷◌, ◌++◌, Text, codes, is_empty, has_prefix, split_n,
  if◌then◌else◌,
}
use rest_trans.Sql.{Sql, raw, lit, placeholder}
use rest_trans.Schema.{find}
use rest_trans.Transaction.Types.{Value, string}

-- What `url.ParseQuery` gives, in some order of its map; an empty query gives the empty map.
abbrev pub Query : Type 0
Query = List (Text × List Text)

-- The conditions of the WHERE clause and their arguments.
pub record Where : Type 0 where
  pub conditions : List Sql
  pub args : List Value

abbrev after_dot : List Text → Option Text
after_dot (a ∷ b ∷ []) = some b
after_dot _ = none

abbrev pub next_index : ℕ → Option Text → ℕ
next_index n none = n
next_index n (some t) = n + 1

abbrev pub add_condition : Text → ℕ → Option Text → Where → Where
add_condition key n none w = w
add_condition key n (some t) w = record {
  conditions = (raw key ++ (lit " = " ++ placeholder n)) ∷ w.conditions;
  args = string t ∷ w.args;
}

-- A key and a value of its list, for each that the loops visit.
unfoldable pub entries_of : Text → List Text → List (Text × Text)
entries_of key [] = []
entries_of key (v ∷ vs) = (key, v) ∷ entries_of key vs

unfoldable pub entries : Query → List (Text × Text)
unfolding has_prefix entries_of
entries [] = []
entries ((key, vs) ∷ q) =
    let rest = entries q in if has_prefix (codes "_") key then rest else entries_of key vs ++ rest

unfoldable pub conditions_from : ℕ → List (Text × Text) → Where
unfolding split_n
conditions_from n [] = record { conditions = []; args = [] }
conditions_from n ((key, v) ∷ es) =
    let operand = after_dot (split_n 46 2 v) in
    add_condition key n operand (conditions_from (next_index n operand) es)

-- `extractWhereClause`, before the conditions are joined.
unfoldable pub extract_where_clause : Option Query → Where
unfolding entries conditions_from
extract_where_clause none = record { conditions = []; args = [] }
extract_where_clause (some q) = conditions_from 1 (entries q)

abbrev first_value : Option (List Text) → Text
first_value (some (v ∷ vs)) = v
first_value _ = []

abbrev or_whole : Text → Option Text → Text
or_whole v none = v
or_whole v (some t) = t

-- `extractIDParam`.
unfoldable pub extract_id_param : Option Query → Text
unfolding find split_n
extract_id_param none = []
extract_id_param (some q) =
    let v = first_value (find (codes "id") q) in
    if is_empty v then [] else or_whole v (after_dot (split_n 46 2 v))
