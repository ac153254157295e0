-- ===== src/Transaction/Undo.antt =====
-- `CaptureSnapshot` and `RollbackPostCommit` of internal/transaction/manager.go: the rows as they
-- are before a change, and the way back to them after a commit.
pub mod Atomic
pub mod Chains
pub mod Conflicts
pub mod Reverts
use rest_trans.Prelude.{
  ℕ, zero, suc, ◌+◌, Bool, true, false, ◌&&◌, ◌||◌, not, Option, none, some, List, [], ◌∷◌, ◌++◌,
  Text, codes, text_eq, if◌then◌else◌,
}
use rest_trans.Sql.{Sql, raw, lit, placeholder, join_sql, render}
use rest_trans.Schema.{find}
use rest_trans.Transaction.Types.{
  Value, null, Row, Status, committed, rolled_back, Transaction, Verb, insert, update, delete,
  Operation, Store, Target, Faults, Failure, get_transaction, not_committed, read_operations,
  begin_target, commit_target, mark_rolled_back, capture_snapshot, unmarshal_row_ids,
  rollback_insert, rollback_update, rollback_delete, cannot_read_row, missing_column,
  changed_column, Answer, ok, err,
}
use rest_trans.Transaction.Manager.{find_transaction, set_status, operations_of}
use rest_trans.Transaction.Statements.{
  columns_of, values_of, placeholders_from, build_insert_query, build_delete_query,
}
use rest_trans.Transaction.Commit.{Outcome, check_query}

abbrev add_id : Option Value → List Value → List Value
add_id none ids = ids
add_id (some null) ids = ids
add_id (some v) ids = v ∷ ids

-- The values of the column `id` that are not NULL.
unfoldable pub row_ids_of : List Row → List Value
unfolding find
row_ids_of [] = []
row_ids_of (row ∷ rows) = add_id (find (codes "id") row) (row_ids_of rows)

-- The snapshots and the identifiers; both are nil where no row is found.
pub record Snapshot : Type 0 where
  pub before_state : Option (List Row)
  pub row_ids : Option (List Value)

abbrev pub snapshot_of : List Row → Snapshot
snapshot_of [] = record { before_state = none; row_ids = none }
snapshot_of (row ∷ rows) = record {
  before_state = some (row ∷ rows);
  row_ids = some (row_ids_of (row ∷ rows));
}

-- `CaptureSnapshot`.
unfoldable pub capture :
    {S : Type 0} → Target S → Text → Text → Text → List Value → S → Answer Snapshot
unfolding row_ids_of
capture db schema table condition params rows =
    let query =
      codes "SELECT * FROM "
      ++ (schema ++ (codes "." ++ (table ++ (codes " WHERE " ++ condition)))) in
    elim (db.select_rows query params rows) [
      | none ↦ err capture_snapshot
      | some found ↦ ok (snapshot_of found)
    ]

abbrev is_committed : Status → Bool
is_committed committed = true
is_committed _ = false

abbrev pub committed_transaction : Option Transaction → Bool
committed_transaction none = false
committed_transaction (some t) = is_committed t.status

-- The assignments of a snapshot but for `id`, and their arguments; `updated_at` is set to now.
unfoldable pub restore_clauses : ℕ → Row → List Sql
unfolding text_eq
restore_clauses i [] = []
restore_clauses i ((k, v) ∷ row) =
    let skipped = restore_clauses i row in
    let rest = restore_clauses (i + 1) row in
    if text_eq k (codes "id") then skipped else (raw k ++ (lit " = " ++ placeholder i)) ∷ rest

unfoldable pub restore_args : Value → Row → List Value
unfolding text_eq
restore_args now [] = []
restore_args now ((k, v) ∷ row) =
    let rest = restore_args now row in
    if text_eq k (codes "id")
    then rest
    else (if text_eq k (codes "updated_at") then now else v) ∷ rest

-- The loop's `i` at its end.
unfoldable pub where_index : ℕ → Row → ℕ
unfolding text_eq
where_index i [] = i
where_index i ((k, v) ∷ row) =
    let skipped = where_index i row in
    let rest = where_index (i + 1) row in if text_eq k (codes "id") then skipped else rest

unfoldable pub restore_query : Text → Row → Sql
unfolding restore_clauses where_index join_sql
restore_query table row =
    lit "UPDATE "
    ++ (raw table
        ++ (lit " SET "
            ++ (join_sql (lit ", ") (restore_clauses 1 row)
                ++ (lit " WHERE id = " ++ placeholder (where_index 1 row)))))

-- What of a committed row a later change has touched; `updated_at` does not count.
unfoldable pub conflict_in : (Value → Text) → Value → Row → Row → Option Failure
unfolding text_eq find
conflict_in show id current [] = none
conflict_in show id current ((k, expected) ∷ row) =
    let rest = conflict_in show id current row in
    if text_eq k (codes "updated_at") then rest else elim (find k current) [
      | none ↦ some (missing_column id k)
      | some v ↦ if text_eq (show expected) (show v) then rest else some (changed_column id k)
    ]

module _ {S : Type 0} (db : Target S) where
  abbrev conflict_at : Text → Row → S → Option Value → Option Failure
  conflict_at table row rows none = none
  conflict_at table row rows (some id) = elim (db.read_row (check_query db table) id rows) [
    | none ↦ some (cannot_read_row id)
    | some current ↦ conflict_in db.print_value id current row
  ]

  -- The conflict check of an update: the first failure.
  unfoldable pub conflict : Text → List Row → S → Option Failure
  unfolding conflict_in find
  conflict table [] rows = none
  conflict table (row ∷ rest) rows =
      let later = conflict table rest rows in
      elim (conflict_at table row rows (find (codes "id") row)) [ some e ↦ some e | none ↦ later ]

  abbrev pub conflict_of : Text → Option (List Row) → S → Option Failure
  conflict_of table none rows = none
  conflict_of table (some states) rows = conflict table states rows

  -- The deletion of the rows that were inserted.
  unfoldable pub delete_rows : Text → List Value → S → Answer S
  unfolding build_delete_query render
  delete_rows table [] rows = ok rows
  delete_rows table (id ∷ ids) rows =
      elim (db.exec (render (build_delete_query table)) (id ∷ []) rows) [
        | none ↦ err rollback_insert
        | some rows' ↦ delete_rows table ids rows'
      ]

  abbrev restore_row : Value → Text → Row → Option Value → S → Option S
  restore_row now table row none rows = some rows
  restore_row now table row (some id) rows =
      db.exec (render (restore_query table row)) (restore_args now row ++ id ∷ []) rows

  -- The rows of an update as they were.
  unfoldable pub restore_rows : Value → Text → List Row → S → Answer S
  unfolding find restore_query restore_args render
  restore_rows now table [] rows = ok rows
  restore_rows now table (row ∷ rest) rows =
      elim (restore_row now table row (find (codes "id") row) rows) [
        | none ↦ err rollback_update
        | some rows' ↦ restore_rows now table rest rows'
      ]

  -- The rows of a deletion, put back.
  unfoldable pub reinsert_rows : Text → List Row → S → Answer S
  unfolding build_insert_query placeholders_from render
  reinsert_rows table [] rows = ok rows
  reinsert_rows table (row ∷ rest) rows =
      let query = build_insert_query table (columns_of row) (placeholders_from 1 row) in
      elim (db.exec (render query) (values_of row) rows) [
        | none ↦ err rollback_delete
        | some rows' ↦ reinsert_rows table rest rows'
      ]

  abbrev undo_insert : Operation → Option (List Value) → S → Answer S
  undo_insert o none rows = err unmarshal_row_ids
  undo_insert o (some ids) rows = delete_rows o.table_name ids rows

  abbrev undo_update : Value → Operation → List Row → Option Failure → S → Answer S
  undo_update now o snapshots (some e) rows = err e
  undo_update now o snapshots none rows = restore_rows now o.table_name snapshots rows

  abbrev undo_plain : Operation → S → Answer S
  undo_plain o rows = elim o.operation [ insert ↦ undo_insert o o.row_ids rows | _ ↦ ok rows ]

  abbrev undo_snapshots : Value → Operation → List Row → S → Answer S
  undo_snapshots now o snapshots rows = elim o.operation [
    | insert ↦ ok rows
    | update ↦ undo_update now o snapshots (conflict_of o.table_name o.committed_state rows) rows
    | delete ↦ reinsert_rows o.table_name snapshots rows
  ]

  -- The way back over one operation.
  unfoldable pub undo_op : Value → Operation → S → Answer S
  unfolding delete_rows conflict restore_rows reinsert_rows
  undo_op now o rows = elim o.before_state [
    | none ↦ undo_plain o rows
    | some snapshots ↦ undo_snapshots now o snapshots rows
  ]

  unfoldable pub undo_ops : Value → List Operation → S → Answer S
  unfolding undo_op
  undo_ops now [] rows = ok rows
  undo_ops now (o ∷ os) rows = elim (undo_op now o rows) [
    | err e ↦ err e
    | ok rows' ↦ undo_ops now os rows'
  ]

-- `ORDER BY id DESC`.
unfoldable pub newest_first : List Operation → List Operation
newest_first [] = []
newest_first (o ∷ os) = newest_first os ++ o ∷ []

-- What follows the loop, of which `rows` are the rows before it.
abbrev pub after_undo : {S : Type 0} → Faults → Text → ℕ → Store → S → Answer S → Outcome S
after_undo f id now s rows (err e) = record { result = err e; store = s; rows = rows }
after_undo f id now s rows (ok rows') =
    if f.commit_target
    then record { result = err commit_target; store = s; rows = rows }
    else if f.mark
    then record { result = err mark_rolled_back; store = s; rows = rows' }
    else record {
      result = ok tt;
      store = record s { transactions = set_status id rolled_back now s.transactions };
      rows = rows';
    }

abbrev pub kept_all : {S : Type 0} → Failure → Store → S → Outcome S
kept_all e s rows = record { result = err e; store = s; rows = rows }

-- `RollbackPostCommit`; `stamp` is the time as an argument of a statement.
unfoldable pub rollback_post_commit :
    {S : Type 0} → Target S → Faults → Text → ℕ → Value → Store → S → Outcome S
unfolding find_transaction operations_of newest_first undo_ops set_status
rollback_post_commit db f id now stamp s rows =
    if f.get
    then kept_all get_transaction s rows
    else if not (committed_transaction (find_transaction id s.transactions))
    then kept_all not_committed s rows
    else if f.read_operations
    then kept_all read_operations s rows
    else if f.begin_target
    then kept_all begin_target s rows
    else let ops = newest_first (operations_of id s.operations) in
      after_undo f id now s rows (undo_ops db stamp ops rows)
