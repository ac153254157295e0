-- ===== src/Query/Operator.antt =====
-- The filter operators of internal/query/params.go: their names in a URL and their SQL.
pub mod Names
use rest_trans.Prelude.{Option, none, some, Text, codes, text_eq, if◌then◌else◌}

pub data Operator : Type 0 where
  eq neq gt gte lt lte like ilike in_list is match imatch : Operator
  contains contained overlaps adjacent : Operator
  strictly_left strictly_right not_strictly_left not_strictly_right : Operator

-- The string that the constant stands for.
abbrev pub name : Operator → Text
name eq = codes "eq"
name neq = codes "neq"
name gt = codes "gt"
name gte = codes "gte"
name lt = codes "lt"
name lte = codes "lte"
name like = codes "like"
name ilike = codes "ilike"
name in_list = codes "in"
name is = codes "is"
name match = codes "match"
name imatch = codes "imatch"
name contains = codes "cs"
name contained = codes "cd"
name overlaps = codes "ov"
name adjacent = codes "adj"
name strictly_left = codes "sl"
name strictly_right = codes "sr"
name not_strictly_left = codes "nsr"
name not_strictly_right = codes "nsl"

-- `Operator.SQL`. The last two have no case of their own.
unfoldable pub sql : Operator → Text
sql eq = codes "="
sql neq = codes "<>"
sql gt = codes ">"
sql gte = codes ">="
sql lt = codes "<"
sql lte = codes "<="
sql like = codes "LIKE"
sql ilike = codes "ILIKE"
sql match = codes "~"
sql imatch = codes "~*"
sql contains = codes "@>"
sql contained = codes "<@"
sql overlaps = codes "&&"
sql adjacent = codes "-|-"
sql strictly_left = codes "<<"
sql strictly_right = codes ">>"
sql not_strictly_left = codes "&<"
sql not_strictly_right = codes "&>"
sql in_list = codes "="
sql is = codes "="

-- `isValidOperator(Operator(s))`, with the operator that `s` then is.
unfoldable pub valid_operator : Text → Option Operator
unfolding text_eq
valid_operator s =
    if text_eq s (name eq)
    then some eq
    else if text_eq s (name neq)
    then some neq
    else if text_eq s (name gt)
    then some gt
    else if text_eq s (name gte)
    then some gte
    else if text_eq s (name lt)
    then some lt
    else if text_eq s (name lte)
    then some lte
    else if text_eq s (name like)
    then some like
    else if text_eq s (name ilike)
    then some ilike
    else if text_eq s (name in_list)
    then some in_list
    else if text_eq s (name is)
    then some is
    else if text_eq s (name match)
    then some match
    else if text_eq s (name imatch)
    then some imatch
    else if text_eq s (name contains)
    then some contains
    else if text_eq s (name contained)
    then some contained
    else if text_eq s (name overlaps)
    then some overlaps
    else if text_eq s (name adjacent)
    then some adjacent
    else if text_eq s (name strictly_left)
    then some strictly_left
    else if text_eq s (name strictly_right)
    then some strictly_right
    else if text_eq s (name not_strictly_left)
    then some not_strictly_left
    else if text_eq s (name not_strictly_right)
    then some not_strictly_right
    else none
