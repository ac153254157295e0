-- ===== src/Api/Post.antt =====
-- `HandlePost` of internal/api/handler.go: the insertion of one row or many.
pub mod Numbered
use rest_trans.Prelude.{
  ℕ, Bool, true, false, not, Option, none, some, List, [], ◌∷◌, ◌++◌, Text, codes, is_empty, split,
  trim_space, contains, length, if◌then◌else◌,
}
use rest_trans.Prelude.Int.{ℤ}
use rest_trans.ApiErrors.{err_invalid_column, err_conflict}
use rest_trans.Sql.{Sql, lit, join_sql, render}
use rest_trans.Schema.{Table, SchemaStore, find, is_some, qualified_name}
use rest_trans.Transaction.Types.{Value, Row}
use rest_trans.Query.Builder.Write.{insert_sql, rows_from, on_conflict}
use rest_trans.Response.{Reply, reply_error, contains_prefer, write_inserted}
use rest_trans.Api.Types.{
  Body, unreadable, empty, malformed, array, object, Request, Database, Checked, refused, passed,
  ◌>>=◌, ◌>>◌, unless, writable_table, body_refused, some_columns, row_args, parse_prefer, Prepared,
  execute, database_error,
}

abbrev rows_in : List Row → Checked (Row × List Row)
rows_in [] = refused (body_refused (codes "Empty array"))
rows_in (r ∷ rows) = passed (r, rows)

-- The rows of a body: the first, whose keys are the columns, and the others.
abbrev pub rows_of : Body → Checked (Row × List Row)
rows_of (unreadable e) = refused (body_refused e)
rows_of empty = refused (body_refused (codes "Empty request body"))
rows_of (malformed e) = refused (body_refused e)
rows_of (array rows) = rows_in rows
rows_of (object row) = passed (row, [])

unfoldable pub all_args : List Text → List Row → List Value
unfolding row_args
all_args cols [] = []
all_args cols (row ∷ rows) = row_args cols row ++ all_args cols rows

-- The loop over the parts of `on_conflict`.
unfoldable pub conflict_names : Table → List Text → Checked (List Text)
unfolding find trim_space
conflict_names t [] = passed []
conflict_names t (part ∷ parts) =
    let col = trim_space part in
    let rest = conflict_names t parts in
    let listed =
      unless (not (is_some (find col t.columns))) (reply_error [] (err_invalid_column col))
      >> rest
      >>= λ cols. passed (col ∷ cols) in
    if is_empty col then rest else listed

-- The columns of a conflict: those of the parameter, or the primary key.
unfoldable pub conflict_columns : Table → Text → Checked (List Text)
unfolding conflict_names split
conflict_columns t given =
    if not (is_empty given)
    then conflict_names t (split b',' given)
    else passed (if is_empty t.pk then [] else t.pk ∷ [])

abbrev pub merge_clause : List Text → List Text → Sql
merge_clause cols [] = []
merge_clause cols (k ∷ ks) = on_conflict (k ∷ ks) cols

-- What `Prefer` adds to the INSERT.
unfoldable pub resolution : Table → Text → List Text → List Text → Checked Sql
unfolding conflict_columns contains_prefer on_conflict
resolution t given prefer cols =
    if contains_prefer prefer (codes "resolution=merge-duplicates")
    then (conflict_columns t given >>= λ conflict. passed (merge_clause cols conflict))
    else passed (
        if contains_prefer prefer (codes "resolution=ignore-duplicates")
        then lit " ON CONFLICT DO NOTHING"
        else [])

-- The handler up to its call of Exec.
unfoldable pub prepare_post : SchemaStore → Request → Checked Prepared
unfolding writable_table some_columns resolution all_args rows_from join_sql qualified_name
    parse_prefer
prepare_post store r = do
  t ← writable_table (codes "POST") store r
  rows ← rows_of r.body
  cols ← some_columns (codes "No valid columns") t rows.0
  clause ← resolution t r.on_conflict (parse_prefer r.prefer) cols
  passed (record {
    sql = insert_sql (qualified_name t) cols (length (rows.0 ∷ rows.1)) ++ clause;
    args = all_args cols (rows.0 ∷ rows.1);
  })

abbrev insert_failed : Text → Reply
insert_failed e =
    if contains (codes "duplicate key") e then reply_error [] (err_conflict e) else database_error e

-- `HandlePost`.
unfoldable pub handle_post : {S : Type 0} → Database S → SchemaStore → Request → S → Reply × S
unfolding prepare_post write_inserted contains render
handle_post db store r s =
    execute db (λ n. write_inserted [] n (parse_prefer r.prefer)) insert_failed s
      (prepare_post store r)
