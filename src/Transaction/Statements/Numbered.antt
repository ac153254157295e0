-- ===== src/Transaction/Statements/Numbered.antt =====
-- The placeholders of the statements that are staged.
use mathlib.Core.List.{append-nil}
use rest_trans.Prelude.{
  ℕ, suc, ◌+◌, [], ◌∷◌, ◌++◌, ◌≡◌, refl, ap, arith, Text, length, length-append,
}
use rest_trans.Sql.{placeholders, count_from}
use rest_trans.Sql.Numbering.{
  placeholders-append, all_placeholders, placeholders-join_sql, count_from-append,
}
use rest_trans.Transaction.Types.{Value, Row}
use rest_trans.Transaction.Statements.{
  columns_of, values_of, placeholders_from, clauses_from, extract_insert_parts,
  extract_update_parts, build_insert_query, build_update_query,
}

columns_of-placeholders : (row : Row) → all_placeholders (columns_of row) ≡ []
columns_of-placeholders [] = refl
columns_of-placeholders ((k, v) ∷ row) = columns_of-placeholders row

placeholders_from-count_from :
    (i : ℕ) (row : Row)
    → all_placeholders (placeholders_from i row) ≡ count_from i (length (values_of row))
unfolding placeholders_from
placeholders_from-count_from i [] = refl
placeholders_from-count_from i ((k, v) ∷ row) =
    ap (◌∷◌ i) (placeholders_from-count_from (i + 1) row)

clauses_from-count_from :
    (i : ℕ) (row : Row)
    → all_placeholders (clauses_from i row) ≡ count_from i (length (values_of row))
unfolding clauses_from
clauses_from-count_from i [] = refl
clauses_from-count_from i ((k, v) ∷ row) = ap (◌∷◌ i) (clauses_from-count_from (i + 1) row)

length-clauses_from : (i : ℕ) (row : Row) → length (clauses_from i row) ≡ length (values_of row)
unfolding clauses_from
length-clauses_from i [] = refl
length-clauses_from i ((k, v) ∷ row) = ap suc (length-clauses_from (i + 1) row)

-- The insertion of an item has one placeholder for each of its values, numbered from 1.
staged_insert-count_from :
    (table : Text) (item : Row)
    → placeholders (
        build_insert_query table
          (extract_insert_parts item).clauses
          (extract_insert_parts item).marks)
      ≡ count_from 1 (length (extract_insert_parts item).vals)
unfolding build_insert_query extract_insert_parts
staged_insert-count_from table item =
    simp (placeholders-append, placeholders-join_sql, columns_of-placeholders, append-nil)
      (placeholders_from-count_from 1 item)

-- The update to an item has one placeholder for each of its values and one more, for the row's
-- identifier, and they are numbered from 1: with the identifier as its last argument, it has as
-- many arguments as placeholders.
staged_update-count_from :
    (table : Text) (item : Row) (id : Value)
    → placeholders (
        build_update_query table
          (extract_update_parts item).clauses
          (extract_update_parts item).marks)
      ≡ count_from 1 (length ((extract_update_parts item).vals ++ id ∷ []))
unfolding build_update_query extract_update_parts
staged_update-count_from table item id =
    let n = length (values_of item) in
    let e : length (clauses_from 1 item) + 1 ≡ 1 + n = omega (arith, length-clauses_from 1 item) in
    simp (placeholders-append, placeholders-join_sql)
      (rw (clauses_from-count_from 1 item, e, length-append (values_of item) (id ∷ []))
        (count_from-append 1 n 1))
