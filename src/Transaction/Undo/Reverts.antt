-- ===== src/Transaction/Undo/Reverts.antt =====
-- What it means to undo staged operations, said as relations on the client's rows.
use rest_trans.Prelude.{◌≡◌, ◌≢◌, ◌⊎◌, Option, none, some, List, [], ◌∷◌, ◌++◌, Text, codes, All}
use rest_trans.Sql.{render}
use rest_trans.Schema.{find}
use rest_trans.Transaction.Types.{Value, Row, insert, update, delete, Operation, Target}
use rest_trans.Transaction.Statements.{
  columns_of, values_of, placeholders_from, build_insert_query, build_delete_query,
}
use rest_trans.Transaction.Commit.{check_query}
use rest_trans.Transaction.Undo.{restore_query, restore_args}

-- One after another, in the order of the list.
abbrev pub Chain : {A S : Type 0} → (A → S → S → Type 0) → List A → S → S → Type 0
Chain R [] s u = s ≡ u
Chain {S = S} R (x ∷ xs) s u = (t : S) × R x s t × Chain R xs t u

-- One after another, from the last of the list to the first.
abbrev pub ChainBack : {A S : Type 0} → (A → S → S → Type 0) → List A → S → S → Type 0
ChainBack R [] s u = s ≡ u
ChainBack {S = S} R (x ∷ xs) s u = (t : S) × ChainBack R xs s t × R x t u

abbrev pub states : Option (List Row) → List Row
states none = []
states (some rows) = rows

module _ {S : Type 0} (db : Target S) (now : Value) where
  -- The row that an insertion has made is deleted.
  abbrev pub Deletes : Text → Value → S → S → Type 0
  Deletes table id rows rows' =
      db.exec (render (build_delete_query table)) (id ∷ []) rows ≡ some rows'

  -- The row gets its old values; a snapshot with no `id` is passed over.
  abbrev pub Restores : Text → Row → S → S → Type 0
  Restores table row rows rows' =
      ((find (codes "id") row ≡ none) × (rows ≡ rows'))
      ⊎ ((id : Value) × (find (codes "id") row ≡ some id)
          × (db.exec (render (restore_query table row)) (restore_args now row ++ id ∷ []) rows
              ≡ some rows'))

  -- The row that was deleted is inserted again.
  abbrev pub Reinserts : Text → Row → S → S → Type 0
  Reinserts table row rows rows' =
      db.exec (render (build_insert_query table (columns_of row) (placeholders_from 1 row)))
        (values_of row) rows
      ≡ some rows'

  -- A value that is as the commit left it, by its print; `updated_at` may differ.
  abbrev pub IsAsLeft : Row → Text × Value → Type 0
  IsAsLeft current (k, expected) =
      (k ≡ codes "updated_at")
      ⊎ ((v : Value) × (find k current ≡ some v) × (db.print_value expected ≡ db.print_value v))

  -- A row that no later change has touched.
  abbrev pub IsUntouched : Text → S → Row → Type 0
  IsUntouched table rows row =
      (id : Value)
      → find (codes "id") row ≡ some id
      → (current : Row) × (db.read_row (check_query db table) id rows ≡ some current)
        × All (IsAsLeft current) row

  pub data Undoes (o : Operation) (rows rows' : S) : Type 0 where
    inserted :
        (ids : List Value)
        → o.operation ≡ insert
        → o.before_state ≡ none
        → o.row_ids ≡ some ids
        → Chain (Deletes o.table_name) ids rows rows'
        → Undoes o rows rows'
    updated :
        (snapshots : List Row)
        → o.operation ≡ update
        → o.before_state ≡ some snapshots
        → All (IsUntouched o.table_name rows) (states o.committed_state)
        → Chain (Restores o.table_name) snapshots rows rows'
        → Undoes o rows rows'
    deleted :
        (snapshots : List Row)
        → o.operation ≡ delete
        → o.before_state ≡ some snapshots
        → Chain (Reinserts o.table_name) snapshots rows rows'
        → Undoes o rows rows'
    -- There is nothing to go back to.
    no_snapshot : o.operation ≢ insert → o.before_state ≡ none → rows ≡ rows' → Undoes o rows rows'
    -- Nothing stages an insertion with a snapshot; the code passes it over.
    no_insertion :
        (snapshots : List Row)
        → o.operation ≡ insert
        → o.before_state ≡ some snapshots
        → rows ≡ rows'
        → Undoes o rows rows'
