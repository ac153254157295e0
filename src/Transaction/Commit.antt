-- ===== src/Transaction/Commit.antt =====
-- `Commit` of internal/transaction/manager.go. Its row lock and its reads are in one database
-- transaction, the client's statements in a second, and the notes that it keeps on the operations
-- are written outside both.
pub mod Atomic
pub mod Noted
pub mod Once
use Prim.Native.Nat.{◌≤◌}
use rest_trans.Prelude.{
  ℕ, suc, ◌+◌, Bool, true, false, ◌&&◌, ◌||◌, not, Option, none, some, List, [], ◌∷◌, ◌++◌, Text,
  codes, decimal, ◌==◌, if◌then◌else◌,
}
use rest_trans.Schema.{find}
use rest_trans.Transaction.Types.{
  Value, number, Row, Status, committed, Transaction, Verb, insert, update, delete, Operation,
  Store, Target, Faults, Failure, get_transaction, not_pending, begin_lock, lock_transaction,
  read_operations, begin_target, execute_op, commit_target, mark_committed, commit_lock, Answer, ok,
  err,
}
use rest_trans.Transaction.Manager.{
  find_transaction, set_status, operations_of, pending_transaction,
}

-- `UPDATE rest_transaction_operations SET row_ids = $1 WHERE id = $2`.
unfoldable pub set_row_ids : ℕ → List Value → List Operation → List Operation
set_row_ids n ids [] = []
set_row_ids n ids (o ∷ os) =
    (if o.id == n then record o { row_ids = some ids } else o) ∷ set_row_ids n ids os

-- `UPDATE rest_transaction_operations SET committed_state = $1 WHERE id = $2`.
unfoldable pub set_committed_state : ℕ → List Row → List Operation → List Operation
set_committed_state n rows [] = []
set_committed_state n rows (o ∷ os) =
    (if o.id == n then record o { committed_state = some rows } else o)
    ∷ set_committed_state n rows os

-- What a commit leaves: its result, the manager's tables and the client's.
pub record Outcome (S : Type 0) : Type 0 where
  pub result : Answer (Unit {0})
  pub store : Store
  pub rows : S

module _ {S : Type 0} (db : Target S) where
  -- One staged operation in the client's transaction; an insertion gives the new row's number.
  unfoldable pub run_op : Operation → S → Option (S × Option ℕ)
  run_op o rows = elim o.operation [
    | insert ↦ (elim (db.insert_returning (o.sql_query ++ codes " RETURNING id") o.params rows) [
      | none ↦ none
      | some (rows', n) ↦ some (rows', some n)
    ])
    | _ ↦ (elim (db.exec o.sql_query o.params rows) [
      | none ↦ none
      | some rows' ↦ some (rows', none)
    ])
  ]

  abbrev pub check_query : Text → Text
  check_query table =
      codes "SELECT row_to_json(t) FROM (SELECT * FROM " ++ (table ++ codes " WHERE id = $1) t")

  abbrev add_row : Option Row → List Row → List Row
  add_row none rows = rows
  add_row (some r) rows = r ∷ rows

  abbrev current_row : Text → S → Option Value → Option Row
  current_row table rows none = none
  current_row table rows (some v) = db.read_row (check_query table) v rows

  -- The rows of the snapshots as they are now; a row that cannot be read is passed over.
  unfoldable pub current_rows : Text → S → List Row → List Row
  unfolding find
  current_rows table rows [] = []
  current_rows table rows (snapshot ∷ rest) =
      add_row (current_row table rows (find (codes "id") snapshot)) (current_rows table rows rest)

module _ {S : Type 0} (db : Target S) (f : Faults) where
  -- The note of an insertion, whose error is passed over.
  abbrev pub note_row : ℕ → Option ℕ → Store → Store
  note_row n none s = s
  note_row n (some row) s =
      if f.write_row_ids n
      then s
      else record s { operations = set_row_ids n (number (decimal row) ∷ []) s.operations }

  -- The loop over the operations.
  unfoldable pub run_ops : List Operation → Store → S → Answer S × Store
  unfolding run_op set_row_ids decimal
  run_ops [] s rows = (ok rows, s)
  run_ops (o ∷ os) s rows = elim (run_op db o rows) [
    | none ↦ (err (execute_op o.id), s)
    | some (rows', n) ↦ run_ops os (note_row o.id n s) rows'
  ]

  abbrev pub note_state : ℕ → List Row → Store → Store
  note_state n [] s = s
  note_state n (r ∷ rs) s =
      if f.write_committed n
      then s
      else record s { operations = set_committed_state n (r ∷ rs) s.operations }

  abbrev pub note_snapshots : Operation → Option (List Row) → Store → S → Store
  note_snapshots o none s rows = s
  note_snapshots o (some snapshots) s rows =
      note_state o.id (current_rows db o.table_name rows snapshots) s

  -- The second loop: what the rows have become.
  unfoldable pub note_all : List Operation → Store → S → Store
  unfolding current_rows set_committed_state
  note_all [] s rows = s
  note_all (o ∷ os) s rows = note_all os (note_snapshots o o.before_state s rows) rows

  -- The end of `Commit`, in the first database transaction.
  abbrev pub mark : Text → ℕ → Store → S → Outcome S
  mark id now s rows =
      if f.mark
      then record { result = err mark_committed; store = s; rows = rows }
      else if f.commit_lock
      then record { result = err commit_lock; store = s; rows = rows }
      else record {
        result = ok tt;
        store = record s { transactions = set_status id committed now s.transactions };
        rows = rows;
      }

  -- What follows the loop over the operations, of which `rows` are the rows before it.
  abbrev pub after_run : Text → ℕ → List Operation → S → Answer S × Store → Outcome S
  after_run id now ops rows (err e, s) = record { result = err e; store = s; rows = rows }
  after_run id now ops rows (ok rows', s) =
      if f.commit_target
      then record { result = err commit_target; store = s; rows = rows }
      else mark id now (note_all ops s rows') rows'

  abbrev pub refused : Failure → Store → S → Outcome S
  refused e s rows = record { result = err e; store = s; rows = rows }

  -- `Commit`.
  unfoldable pub commit : Text → ℕ → Store → S → Outcome S
  unfolding find_transaction operations_of run_ops note_all set_status
  commit id now s rows =
      if f.get
      then refused get_transaction s rows
      else if not (pending_transaction (find_transaction id s.transactions))
      then refused not_pending s rows
      else if f.begin_lock
      then refused begin_lock s rows
      else if f.lock
      then refused lock_transaction s rows
      else if f.read_operations
      then refused read_operations s rows
      else if f.begin_target
      then refused begin_target s rows
      else let ops = operations_of id s.operations in after_run id now ops rows (run_ops ops s rows)
