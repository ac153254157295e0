-- ===== src/Query/Builder/Where.antt =====
-- `buildWhere` of internal/query/builder.go and the conditions that it joins.
pub mod Numbered
use rest_trans.Prelude.{
  ℕ, zero, suc, ◌+◌, Bool, true, false, ◌||◌, Option, none, some, List, [], ◌∷◌, ◌++◌, Text, codes,
  text_eq, to_lower, to_upper, is_empty, if◌then◌else◌, Result, ok, err, invalid_is_value,
  nil_table, ◌>>=◌,
}
use rest_trans.Sql.{Sql, raw, lit, placeholder, join_sql}
use rest_trans.Schema.{Table, SchemaStore, qualify}
use rest_trans.Query.Operator.{Operator}
use rest_trans.Query.Operator
use rest_trans.Query.Params.{
  Filter, FilterOp, logical_and, logical_or, logical_not, LogicalFilter, group, Logicals, nil, cons,
  FtsFilter, Params,
}
use rest_trans.Query.InValues.{parse_in_values}

-- `table` is `none` where the source passes nil.
pub record Builder : Type 0 where
  pub table : Option Table
  pub params : Params
  pub schema_name : Text
  pub store : Option SchemaStore

-- `b.Table`, where a field of it is read. At nil the source panics.
abbrev pub table_of : Option Table → Result Table
table_of none = err nil_table
table_of (some t) = ok t

-- `qualifiedTable`.
unfoldable pub qualified_table : Builder → Table → Text
unfolding text_eq
qualified_table b t = qualify b.schema_name t.name

-- A condition, its arguments, and the next number for a placeholder.
pub record Cond : Type 0 where
  pub sql : Sql
  pub args : List Text
  pub next : ℕ

-- The variables of a loop over conditions.
pub record Conds : Type 0 where
  pub conditions : List Sql
  pub args : List Text
  pub next : ℕ

abbrev pub no_conds : ℕ → Conds
no_conds idx = record { conditions = []; args = []; next = idx }

abbrev pub append_cond : Conds → Cond → Conds
append_cond cs c = record {
  conditions = cs.conditions ++ c.sql ∷ [];
  args = cs.args ++ c.args;
  next = c.next;
}

abbrev not_around : Bool → Sql → Sql
not_around negate cond = if negate then lit "NOT (" ++ (cond ++ lit ")") else cond

abbrev no_args : Sql → ℕ → Cond
no_args sql idx = record { sql = sql; args = []; next = idx }

-- `case OpIs`.
unfoldable pub is_condition : Filter → ℕ → Result Cond
unfolding to_lower to_upper text_eq
is_condition f idx =
    let val = to_lower f.value in
    if text_eq val (codes "null")
    then ok
        (no_args (raw f.column ++ (if f.negate then lit " IS NOT NULL" else lit " IS NULL")) idx)
    else if text_eq val (codes "true") || text_eq val (codes "false")
    then ok (
        no_args
          (raw f.column
            ++ ((if f.negate then lit " IS NOT " else lit " IS ") ++ raw (to_upper val)))
          idx)
    else err (invalid_is_value f.value)

-- One placeholder for each value.
unfoldable pub value_placeholders : ℕ → List Text → List Sql
value_placeholders idx [] = []
value_placeholders idx (v ∷ vs) = placeholder idx ∷ value_placeholders (idx + 1) vs

abbrev advance : ℕ → List Text → ℕ
advance idx [] = idx
advance idx (v ∷ vs) = advance (idx + 1) vs

-- `case OpIn`.
unfoldable pub in_condition : Filter → ℕ → Cond
unfolding parse_in_values value_placeholders join_sql
in_condition f idx =
    let values = parse_in_values f.value in
    record {
      sql = not_around f.negate (
          raw f.column
          ++ (lit " IN (" ++ (join_sql (lit ", ") (value_placeholders idx values) ++ lit ")")));
      args = values;
      next = advance idx values;
    }

abbrev operator_sql : Filter → Sql
operator_sql f =
    if is_empty f.modifier
    then raw (Operator.sql f.operator)
    else raw (Operator.sql f.operator) ++ (lit " " ++ raw (to_upper f.modifier))

-- The default case.
unfoldable pub plain_condition : Filter → ℕ → Cond
unfolding Operator.sql to_upper
plain_condition f idx = record {
  sql =
      not_around f.negate
        (raw f.column ++ (lit " " ++ (operator_sql f ++ (lit " " ++ placeholder idx))));
  args = f.value ∷ [];
  next = idx + 1;
}

unfoldable pub condition_by : Operator → Filter → ℕ → Result Cond
unfolding is_condition in_condition plain_condition
condition_by Operator.is f idx = is_condition f idx
condition_by Operator.in_list f idx = ok (in_condition f idx)
condition_by _ f idx = ok (plain_condition f idx)

-- `buildFilterCondition`.
unfoldable pub build_filter_condition : Filter → ℕ → Result Cond
unfolding condition_by
build_filter_condition f idx = condition_by f.operator f idx

unfoldable pub filter_conditions : List Filter → Conds → Result Conds
unfolding build_filter_condition
filter_conditions [] cs = ok cs
filter_conditions (f ∷ fs) cs = do
  c ← build_filter_condition f cs.next
  filter_conditions fs (append_cond cs c)

abbrev joiner : FilterOp → Sql
joiner logical_or = lit " OR "
joiner _ = lit " AND "

abbrev negation : FilterOp → Sql
negation logical_not = lit "NOT "
negation _ = []

abbrev close_conditions : FilterOp → List Sql → Sql
close_conditions op [] = []
close_conditions op (c ∷ cs) =
    negation op ++ (lit "(" ++ (join_sql (joiner op) (c ∷ cs) ++ lit ")"))

-- What `buildLogicalCondition` returns after its loops.
unfoldable pub close_group : FilterOp → Conds → Cond
unfolding join_sql
close_group op cs = record {
  sql = close_conditions op cs.conditions;
  args = cs.args;
  next = cs.next;
}

-- `buildLogicalCondition`, and its second loop.
unfoldable mutual
  unfolding filter_conditions close_group

  pub build_logical_condition : LogicalFilter → ℕ → Result Cond
  build_logical_condition (group op fs ls) idx = filter_conditions fs (no_conds idx) >>= λ cs.
      logical_conditions ls cs >>= λ cs'. ok (close_group op cs')

  pub logical_conditions : Logicals → Conds → Result Conds
  logical_conditions nil cs = ok cs
  logical_conditions (cons l ls) cs =
      build_logical_condition l cs.next >>= λ c. logical_conditions ls (append_cond cs c)

abbrev pub language : Table → Text
language t = if is_empty t.fts_language then codes "english" else t.fts_language

-- `buildFtsCondition`. It reads the table's language first.
unfoldable pub build_fts_condition : Option Table → FtsFilter → ℕ → Result Cond
build_fts_condition table f idx = do
  t ← table_of table
  ok (record {
    sql = not_around f.negate (
        raw f.column
        ++ (lit " @@ plainto_tsquery('"
            ++ (raw (language t) ++ (lit "', " ++ (placeholder idx ++ lit ")")))));
    args = f.search_term ∷ [];
    next = idx + 1;
  })

unfoldable pub fts_conditions : Option Table → List FtsFilter → Conds → Result Conds
unfolding build_fts_condition
fts_conditions table [] cs = ok cs
fts_conditions table (f ∷ fs) cs = do
  c ← build_fts_condition table f cs.next
  fts_conditions table fs (append_cond cs c)

-- `buildWhere`: the three loops, joined.
unfoldable pub build_where : Builder → ℕ → Result Cond
unfolding filter_conditions build_logical_condition fts_conditions join_sql
build_where b idx = do
  cs ← filter_conditions b.params.filters (no_conds idx)
  cs' ← logical_conditions b.params.logicals cs
  all ← fts_conditions b.table b.params.fts_filters cs'
  ok (record { sql = join_sql (lit " AND ") all.conditions; args = all.args; next = all.next })
