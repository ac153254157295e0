-- ===== src/Query/Builder/Write.antt =====
-- `BuildInsert`, `BuildUpsert`, `BuildUpdate` and `BuildDelete` of internal/query/builder.go. The
-- caller has the values of the columns: those arguments are not returned.
pub mod Numbered
use rest_trans.Prelude.{
  ℕ, zero, suc, ◌+◌, Bool, true, false, ◌||◌, not, Option, none, some, List, [], ◌∷◌, ◌++◌, Text,
  codes, text_eq, length, if◌then◌else◌, Result, ok, err, empty_insert, empty_upsert,
  empty_conflict_columns, empty_update, ◌>>=◌,
}
use rest_trans.Sql.{Sql, raw, lit, placeholder, join_sql}
use rest_trans.Schema.{Table}
use rest_trans.Query.Builder.Where.{
  Builder, Cond, table_of, qualified_table, value_placeholders, build_where,
}
use rest_trans.Query.Builder.Select.{Statement, where_clause, where_args}

abbrev names : List Text → List Sql
names [] = []
names (c ∷ cs) = raw c ∷ names cs

abbrev column_list : List Text → Sql
column_list cols = join_sql (lit ", ") (names cols)

-- One row of placeholders, from number `idx` on.
unfoldable pub row_placeholders : ℕ → List Text → Sql
unfolding value_placeholders join_sql
row_placeholders idx cols =
    lit "(" ++ (join_sql (lit ", ") (value_placeholders idx cols) ++ lit ")")

-- The loop over the rows. The inner loop adds one to the number for each column.
unfoldable pub rows_from : ℕ → List Text → ℕ → List Sql
unfolding row_placeholders
rows_from idx cols zero = []
rows_from idx cols (suc rows) = row_placeholders idx cols ∷ rows_from (idx + length cols) cols rows

abbrev pub insert_sql : Text → List Text → ℕ → Sql
insert_sql table cols rows =
    lit "INSERT INTO "
    ++ (raw table
        ++ (lit " ("
            ++ (column_list cols
                ++ (lit ") VALUES " ++ join_sql (lit ", ") (rows_from 1 cols rows)))))

-- `BuildInsert`.
unfoldable pub build_insert : Builder → List Text → ℕ → Result Sql
unfolding qualified_table rows_from join_sql
build_insert b [] rows = err empty_insert
build_insert b cols zero = err empty_insert
build_insert b cols rows = do t ← table_of b.table; ok (insert_sql (qualified_table b t) cols rows)

abbrev pub listed : Text → List Text → Bool
listed col [] = false
listed col (c ∷ cs) = text_eq col c || listed col cs

-- An assignment for each column that is no conflict column.
unfoldable pub excluded_clauses : List Text → List Text → List Sql
unfolding text_eq
excluded_clauses conflict [] = []
excluded_clauses conflict (col ∷ cols) =
    let rest = excluded_clauses conflict cols in
    if listed col conflict then rest else raw (col ++ codes " = EXCLUDED." ++ col) ∷ rest

abbrev conflict_action : List Sql → Sql
conflict_action [] = lit " DO NOTHING"
conflict_action (s ∷ ss) = lit " DO UPDATE SET " ++ join_sql (lit ", ") (s ∷ ss)

unfoldable pub on_conflict : List Text → List Text → Sql
unfolding excluded_clauses join_sql
on_conflict conflict cols =
    lit " ON CONFLICT ("
    ++ (column_list conflict ++ (lit ")" ++ conflict_action (excluded_clauses conflict cols)))

-- `BuildUpsert`.
unfoldable pub build_upsert : Builder → List Text → List Text → ℕ → Result Sql
unfolding qualified_table rows_from on_conflict
build_upsert b [] conflict rows = err empty_upsert
build_upsert b cols conflict zero = err empty_upsert
build_upsert b cols [] rows = err empty_conflict_columns
build_upsert b cols conflict rows = do
  t ← table_of b.table
  ok (insert_sql (qualified_table b t) cols rows ++ on_conflict conflict cols)

unfoldable pub set_clauses : ℕ → List Text → List Sql
set_clauses idx [] = []
set_clauses idx (c ∷ cs) = (raw c ++ (lit " = " ++ placeholder idx)) ∷ set_clauses (idx + 1) cs

abbrev pub update_sql : Text → List Text → Sql → Sql
update_sql table cols cond =
    lit "UPDATE "
    ++ (raw table
        ++ (lit " SET " ++ (join_sql (lit ", ") (set_clauses 1 cols) ++ where_clause cond)))

-- `BuildUpdate`: the arguments are those of the WHERE clause alone.
unfoldable pub build_update : Builder → List Text → Result Statement
unfolding qualified_table set_clauses join_sql build_where
build_update b [] = err empty_update
build_update b (c ∷ cs) = do
  t ← table_of b.table
  cond ← build_where b (1 + length (c ∷ cs))
  ok (record { sql = update_sql (qualified_table b t) (c ∷ cs) cond.sql; args = where_args cond })

-- `BuildDelete`.
unfoldable pub build_delete : Builder → Result Statement
unfolding qualified_table build_where
build_delete b = do
  t ← table_of b.table
  cond ← build_where b 1
  ok (record {
    sql = lit "DELETE FROM " ++ (raw (qualified_table b t) ++ where_clause cond.sql);
    args = cond.args;
  })
