-- ===== src/Transaction/Statements.antt =====
-- The statements that internal/transaction writes: `BuildInsertQuery`, `BuildUpdateQuery` and
-- `BuildDeleteQuery` of manager.go, `extractInsertParts` and `extractUpdateParts` of middleware.go.
-- A map is visited in the order of its list.
pub mod Numbered
use rest_trans.Prelude.{ℕ, ◌+◌, List, [], ◌∷◌, ◌++◌, Text, codes, length}
use rest_trans.Sql.{Sql, raw, lit, placeholder, join_sql}
use rest_trans.Transaction.Types.{Value, Row}

abbrev pub columns_of : Row → List Sql
columns_of [] = []
columns_of ((k, v) ∷ row) = raw k ∷ columns_of row

abbrev pub values_of : Row → List Value
values_of [] = []
values_of ((k, v) ∷ row) = v ∷ values_of row

unfoldable pub placeholders_from : ℕ → Row → List Sql
placeholders_from i [] = []
placeholders_from i ((k, v) ∷ row) = placeholder i ∷ placeholders_from (i + 1) row

unfoldable pub clauses_from : ℕ → Row → List Sql
clauses_from i [] = []
clauses_from i ((k, v) ∷ row) = (raw k ++ (lit " = " ++ placeholder i)) ∷ clauses_from (i + 1) row

-- The columns or clauses, the placeholders and the values of a row.
pub record Parts : Type 0 where
  pub clauses : List Sql
  pub marks : List Sql
  pub vals : List Value

-- `extractInsertParts`.
unfoldable pub extract_insert_parts : Row → Parts
unfolding placeholders_from
extract_insert_parts item = record {
  clauses = columns_of item;
  marks = placeholders_from 1 item;
  vals = values_of item;
}

-- `extractUpdateParts`.
unfoldable pub extract_update_parts : Row → Parts
unfolding placeholders_from clauses_from
extract_update_parts item = record {
  clauses = clauses_from 1 item;
  marks = placeholders_from 1 item;
  vals = values_of item;
}

-- `BuildInsertQuery`.
unfoldable pub build_insert_query : Text → List Sql → List Sql → Sql
unfolding join_sql
build_insert_query table columns marks =
    lit "INSERT INTO "
    ++ (raw table
        ++ (lit " ("
            ++ (join_sql (lit ", ") columns
                ++ (lit ") VALUES (" ++ (join_sql (lit ", ") marks ++ lit ")")))))

-- `BuildUpdateQuery`, which does not read its third argument.
unfoldable pub build_update_query : Text → List Sql → List Sql → Sql
unfolding join_sql
build_update_query table clauses marks =
    lit "UPDATE "
    ++ (raw table
        ++ (lit " SET "
            ++ (join_sql (lit ", ") clauses
                ++ (lit " WHERE id = " ++ placeholder (length clauses + 1)))))

-- `BuildDeleteQuery`.
unfoldable pub build_delete_query : Text → Sql
build_delete_query table =
    lit "DELETE FROM " ++ (raw table ++ (lit " WHERE id = " ++ placeholder 1))
