-- ===== src/Query/Builder/Select.antt =====
-- `BuildSelect` and `BuildCount` of internal/query/builder.go.
pub mod Parts
pub mod Numbered
use rest_trans.Prelude.{
  ℕ, ◌+◌, Bool, true, false, ◌&&◌, ◌||◌, not, Option, none, some, List, [], ◌∷◌, ◌++◌, Text, codes,
  text_eq, to_upper, is_empty, ◌==◌, if◌then◌else◌, Result, ok, err, column_not_found, ◌>>=◌,
  decimal,
}
use rest_trans.Prelude.Int.{ℤ, pos, negsuc}
use rest_trans.Sql.{Sql, raw, lit, placeholder, join_sql, is_blank}
use rest_trans.Schema.{
  Table, Column, ForeignKey, SchemaStore, find, is_some, qualified_name, ordered_columns, get_table,
  schema_names,
}
use rest_trans.Query.Params.{
  Embed, Aggregate, OrderItem, OrderDirection, asc, desc, FtsFilter, Params, Range,
}
use rest_trans.Query.Builder.Where.{Builder, Cond, table_of, qualified_table, language, build_where}

-- A statement and the arguments for its placeholders.
pub record Statement : Type 0 where
  pub sql : Sql
  pub args : List Text

-- The column list of the selection; an unknown column ends it.
unfoldable pub select_columns : Table → Text → List Text → Result (List Sql)
unfolding find
select_columns t q [] = ok []
select_columns t q (col ∷ cols) =
    if not (is_some (find col t.columns))
    then err (column_not_found col)
    else do rest ← select_columns t q cols; ok (raw (q ++ codes "." ++ col) ∷ rest)

abbrev or_table : Option Table → Option Table → Option Table
or_table (some t) other = some t
or_table none other = other

unfoldable pub table_in : SchemaStore → Text → List Text → Option Table
unfolding get_table
table_in ss name [] = none
table_in ss name (s ∷ names) = or_table (get_table ss s name) (table_in ss name names)

-- The table of an embedding: in the default schema, else in the first schema that has it.
unfoldable pub embed_table : SchemaStore → Text → Option Table
unfolding table_in get_table
embed_table ss name = or_table (get_table ss [] name) (table_in ss name (schema_names ss))

abbrev json_column : Text → Text → Sql
json_column table col = lit "'" ++ (raw col ++ (lit "', " ++ (raw table ++ (lit "." ++ raw col))))

unfoldable pub all_json_columns : Text → List Column → List Sql
all_json_columns table [] = []
all_json_columns table (c ∷ cs) = json_column table c.name ∷ all_json_columns table cs

unfoldable pub chosen_json_columns : Text → Table → List Text → List Sql
unfolding find
chosen_json_columns table ref [] = []
chosen_json_columns table ref (col ∷ cols) =
    let rest = chosen_json_columns table ref cols in
    if is_some (find col ref.columns) then json_column table col ∷ rest else rest

abbrev json_columns : Embed → Table → List Text → List Sql
json_columns e ref [] = all_json_columns e.table (ordered_columns ref)
json_columns e ref (col ∷ cols) = chosen_json_columns e.table ref (col ∷ cols)

abbrev json_object : Text → List Sql → Sql
json_object table [] = lit "NULL"
json_object table (c ∷ cs) =
    lit "json_build_object(" ++ (join_sql (lit ", ") (c ∷ cs) ++ (lit ") AS " ++ raw table))

abbrev embed_from : Embed → Option Table → Sql
embed_from e none = lit "NULL"
embed_from e (some ref) = json_object e.table (json_columns e ref e.select)

-- `buildEmbedSelect`.
unfoldable pub build_embed_select : Option SchemaStore → Embed → Sql
unfolding embed_table all_json_columns chosen_json_columns ordered_columns join_sql
build_embed_select none e = lit "NULL"
build_embed_select (some ss) e = embed_from e (embed_table ss e.table)

unfoldable pub embed_selects : Option SchemaStore → List Embed → List Sql
unfolding build_embed_select
embed_selects ss [] = []
embed_selects ss (e ∷ es) = build_embed_select ss e ∷ embed_selects ss es

-- `buildAggregateSelect`.
unfoldable pub build_aggregate_select : Text → Aggregate → Sql
unfolding to_upper text_eq
build_aggregate_select q a =
    raw (to_upper a.func)
    ++ (lit "("
        ++ (raw (if not (text_eq a.col (codes "*")) then q ++ codes "." ++ a.col else a.col)
            ++ (lit ") AS " ++ raw a.alias)))

unfoldable pub aggregate_selects : Text → List Aggregate → List Sql
unfolding build_aggregate_select
aggregate_selects q [] = []
aggregate_selects q (a ∷ rest) = build_aggregate_select q a ∷ aggregate_selects q rest

abbrev no_choice : List Text → List Embed → List Aggregate → Bool
no_choice [] [] [] = true
no_choice _ _ _ = false

abbrev chosen : Builder → Table → Text → Bool → Result Sql
chosen b t q true = ok (raw (q ++ codes ".*"))
chosen b t q false = do
  cols ← select_columns t q b.params.select
  ok (
      join_sql (lit ", ") (
        cols ++ (embed_selects b.store b.params.embeds ++ aggregate_selects q b.params.aggregates)))

-- What stands between `SELECT ` and the ranks or ` FROM `.
unfoldable pub select_list : Builder → Table → Result Sql
unfolding select_columns embed_selects aggregate_selects qualified_table join_sql
select_list b t =
    chosen b t (qualified_table b t) (no_choice b.params.select b.params.embeds b.params.aggregates)

abbrev rank : Text → Table → Sql → Sql
rank col t number =
    lit "ts_rank("
    ++ (raw col
        ++ (lit ", plainto_tsquery('" ++ (raw (language t) ++ (lit "', " ++ (number ++ lit "))")))))

-- The select list with its ranks, and the arguments of these.
pub record Ranked : Type 0 where
  pub list : Sql
  pub args : List Text
  pub next : ℕ

-- The loop over the searches. Both branches of the source put the rank right behind `SELECT `.
unfoldable pub add_ranks : Table → List FtsFilter → Ranked → Ranked
add_ranks t [] r = r
add_ranks t (f ∷ fs) r = add_ranks t fs (record {
  list = rank f.column t (placeholder r.next) ++ (lit " AS _rank" ++ (lit ", " ++ r.list));
  args = r.args ++ f.search_term ∷ [];
  next = r.next + 1;
})

unfoldable pub key_to : Text → List ForeignKey → Option ForeignKey
unfolding text_eq
key_to ref [] = none
key_to ref (f ∷ fs) = if text_eq f.ref_table ref then some f else key_to ref fs

abbrev left_join : Table → Embed → Text → Text → Text → List Sql
left_join ref e q own other =
    (lit "LEFT JOIN "
      ++ (raw (qualified_name ref)
          ++ (lit " AS "
              ++ (raw e.table
                  ++ (lit " ON "
                      ++ (raw (q ++ codes "." ++ own)
                          ++ (lit " = " ++ raw (e.table ++ codes "." ++ other))))))))
    ∷ []

abbrev backward_join : Table → Embed → Text → Text → Option ForeignKey → List Sql
backward_join ref e q pk none = []
backward_join ref e q pk (some f) = left_join ref e q pk f.ref_column

abbrev forward_join : Table → Table → Embed → Text → Option ForeignKey → List Sql
forward_join t ref e q (some f) = left_join ref e q f.column_name f.ref_column
forward_join t ref e q none = backward_join ref e q t.pk (key_to t.name ref.foreign_keys)

abbrev join_from : Table → Embed → Text → Option Table → List Sql
join_from t e q none = []
join_from t e q (some ref) = forward_join t ref e q (key_to e.table t.foreign_keys)

unfoldable pub embed_joins : Table → SchemaStore → Text → List Embed → List Sql
unfolding key_to embed_table qualified_name
embed_joins t ss q [] = []
embed_joins t ss q (e ∷ es) = join_from t e q (embed_table ss e.table) ++ embed_joins t ss q es

-- `buildEmbedJoins`. It has no argument and no error.
unfoldable pub build_embed_joins : Builder → Table → Sql
unfolding embed_joins qualified_table join_sql
build_embed_joins b t = elim b.store [
  | none ↦ []
  | some ss ↦ join_sql (lit " ") (embed_joins t ss (qualified_table b t) b.params.embeds)
]

abbrev direction_sql : OrderDirection → Text
direction_sql asc = codes "ASC"
direction_sql desc = codes "DESC"

abbrev order_column : Table → List FtsFilter → Text → Sql
order_column t [] col = raw col
order_column t (f ∷ fs) col =
    if text_eq col (codes "_rank") then rank f.column t (placeholder 1) else raw col

abbrev nulls_sql : Text → Sql
nulls_sql nulls = if is_empty nulls then [] else lit " " ++ raw (to_upper nulls)

unfoldable pub order_parts : Table → List FtsFilter → List OrderItem → List Sql
unfolding text_eq to_upper
order_parts t fts [] = []
order_parts t fts (i ∷ items) =
    (order_column t fts i.column
      ++ (lit " " ++ (raw (direction_sql i.direction) ++ nulls_sql i.nulls)))
    ∷ order_parts t fts items

-- `buildOrderBy`.
unfoldable pub build_order_by : Params → Table → Sql
unfolding order_parts join_sql
build_order_by p t = join_sql (lit ", ") (order_parts t p.fts_filters p.order)

abbrev order_clause : Params → Table → List OrderItem → Sql
order_clause p t [] = []
order_clause p t (i ∷ items) = lit " ORDER BY " ++ build_order_by p t

abbrev limit_clause : ℤ → Sql
limit_clause (pos n) = lit " LIMIT " ++ raw (decimal n)
limit_clause (negsuc n) = []

abbrev offset_clause : ℤ → Sql
offset_clause (pos n) = if n == 0 then [] else lit " OFFSET " ++ raw (decimal n)
offset_clause (negsuc n) = []

abbrev clause : Sql → Sql → Sql
clause word s = if is_blank s then [] else word ++ s

abbrev pub where_clause : Sql → Sql
where_clause s = clause (lit " WHERE ") s

-- The arguments go in with the clause.
abbrev pub where_args : Cond → List Text
where_args c = if is_blank c.sql then [] else c.args

abbrev tail_clauses : Builder → Table → Sql
tail_clauses b t =
    order_clause b.params t b.params.order
    ++ (limit_clause b.params.range.limit ++ offset_clause b.params.range.offset)

abbrev select_sql : Builder → Table → Sql → Sql → Sql
select_sql b t list cond =
    lit "SELECT "
    ++ (list
        ++ (lit " FROM "
            ++ (raw (qualified_table b t)
                ++ (clause (lit " ") (build_embed_joins b t)
                    ++ (where_clause cond ++ tail_clauses b t)))))

-- `BuildSelect`.
unfoldable pub build_select : Builder → Result Statement
unfolding select_list add_ranks build_embed_joins build_where build_order_by qualified_table decimal
build_select b = do
  t ← table_of b.table
  list ← select_list b t
  let ranked = add_ranks t b.params.fts_filters (record { list = list; args = []; next = 1 })
  cond ← build_where b ranked.next
  ok (record { sql = select_sql b t ranked.list cond.sql; args = ranked.args ++ where_args cond })

-- `BuildCount`.
unfoldable pub build_count : Builder → Result Statement
unfolding build_where qualified_table
build_count b = do
  t ← table_of b.table
  cond ← build_where b 1
  ok (record {
    sql = lit "SELECT count(*) FROM " ++ (raw (qualified_table b t) ++ where_clause cond.sql);
    args = where_args cond;
  })
