-- ===== src/Transaction/Manager.antt =====
-- internal/transaction/manager.go: `Start`, `Get`, `GetOperations`, `List`, `Stage`, `Rollback` and
-- `cleanup`. Each SQL statement is what it does to the two tables.
pub mod Cleanup
pub mod Rollback
pub mod Pending
use rest_trans.Prelude.{
  ℕ, zero, suc, ◌+◌, Bool, true, false, ◌&&◌, ◌||◌, not, Option, none, some, List, [], ◌∷◌, ◌++◌,
  Text, text_eq, ltb, if◌then◌else◌,
}
use rest_trans.Transaction.Types.{
  Value, Row, Status, pending, committed, rolled_back, Transaction, Verb, Operation, Store, Faults,
  Failure, create_transaction, get_transaction, not_pending, stage_operation, delete_operations,
  mark_rolled_back, Answer, ok, err,
}

-- `SELECT … FROM rest_transactions WHERE id = $1`.
unfoldable pub find_transaction : Text → List Transaction → Option Transaction
unfolding text_eq
find_transaction id [] = none
find_transaction id (t ∷ ts) = if text_eq t.id id then some t else find_transaction id ts

-- `UPDATE rest_transactions SET status = $1, updated_at = $2 WHERE id = $3`.
unfoldable pub set_status : Text → Status → ℕ → List Transaction → List Transaction
unfolding text_eq
set_status id status now [] = []
set_status id status now (t ∷ ts) =
    (if text_eq t.id id then record t { status = status; updated_at = now } else t)
    ∷ set_status id status now ts

-- `… FROM rest_transaction_operations WHERE transaction_id = $1 ORDER BY id`: the rows stand in
-- the order of their serial numbers.
unfoldable pub operations_of : Text → List Operation → List Operation
unfolding text_eq
operations_of id [] = []
operations_of id (o ∷ os) =
    let rest = operations_of id os in if text_eq o.transaction_id id then o ∷ rest else rest

-- `DELETE FROM rest_transaction_operations WHERE transaction_id = $1`.
unfoldable pub without_operations : Text → List Operation → List Operation
unfolding text_eq
without_operations id [] = []
without_operations id (o ∷ os) =
    let rest = without_operations id os in if text_eq o.transaction_id id then rest else o ∷ rest

abbrev pub is_pending : Status → Bool
is_pending pending = true
is_pending _ = false

-- `tx == nil || tx.Status != StatusPending`, negated.
abbrev pub pending_transaction : Option Transaction → Bool
pending_transaction none = false
pending_transaction (some t) = is_pending t.status

abbrev pub new_transaction : Text → Text → ℕ → Transaction
new_transaction id schema now = record {
  id = id;
  schema = schema;
  status = pending;
  created_at = now;
  updated_at = now;
}

abbrev pub is_found : Option Transaction → Bool
is_found none = false
is_found (some t) = true

-- `Start`, with the identifier that `uuid.New` gave. The identifier is the table's primary key.
unfoldable pub start : Faults → Text → Text → ℕ → Store → Answer Transaction × Store
unfolding find_transaction
start f id schema now s =
    if f.insert_row || is_found (find_transaction id s.transactions)
    then (err create_transaction, s)
    else (
      ok (new_transaction id schema now),
      record s { transactions = s.transactions ++ new_transaction id schema now ∷ [] },
    )

-- `Get`. A missing row is no error.
unfoldable pub get : Faults → Text → Store → Answer (Option Transaction)
unfolding find_transaction
get f id s = if f.get then err get_transaction else ok (find_transaction id s.transactions)

abbrev pub count : List Operation → ℕ
count [] = 0
count (o ∷ os) = suc (count os)

-- `tx.OpCount`.
unfoldable pub op_count : Text → Store → ℕ
unfolding operations_of
op_count id s = count (operations_of id s.operations)

-- `GetOperations`.
unfoldable pub get_operations : Faults → Text → Store → Answer (List Operation)
unfolding operations_of
get_operations f id s =
    if f.read_operations then err Failure.read_operations else ok (operations_of id s.operations)

-- `WHERE t.schema_name = $1 AND t.status = 'pending'`.
unfoldable pub pending_of : Text → List Transaction → List Transaction
unfolding text_eq
pending_of schema [] = []
pending_of schema (t ∷ ts) =
    let rest = pending_of schema ts in
    if text_eq t.schema schema && is_pending t.status then t ∷ rest else rest

-- `ORDER BY t.created_at DESC`, with one order of the many where times are the same.
unfoldable pub insert_newest : Transaction → List Transaction → List Transaction
insert_newest t [] = t ∷ []
insert_newest t (u ∷ us) =
    let rest = insert_newest t us in if ltb t.created_at u.created_at then u ∷ rest else t ∷ u ∷ us

unfoldable pub newest_created : List Transaction → List Transaction
unfolding insert_newest
newest_created [] = []
newest_created (t ∷ ts) = insert_newest t (newest_created ts)

-- `List`.
unfoldable pub list_pending : Faults → Text → Store → Answer (List Transaction)
unfolding pending_of newest_created
list_pending f schema s =
    if f.list_transactions
    then err Failure.list_transactions
    else ok (newest_created (pending_of schema s.transactions))

-- What a caller of `Stage` says of the operation.
pub record Staged : Type 0 where
  pub operation : Verb
  pub table_name : Text
  pub sql_query : Text
  pub params : List Value
  pub before_state : Option (List Row)
  pub row_ids : Option (List Value)

abbrev pub new_operation : Text → Staged → ℕ → Operation
new_operation id st n = record {
  id = n;
  transaction_id = id;
  operation = st.operation;
  table_name = st.table_name;
  sql_query = st.sql_query;
  params = st.params;
  before_state = st.before_state;
  committed_state = none;
  row_ids = st.row_ids;
}

abbrev insert_operation : Faults → Text → Staged → Store → Answer (Unit {0}) × Store
insert_operation f id st s = if f.insert_row then (err stage_operation, s) else (
  ok tt,
  record s {
    operations = s.operations ++ new_operation id st s.next_id ∷ [];
    next_id = s.next_id + 1;
  },
)

-- `Stage`.
unfoldable pub stage : Faults → Text → Staged → Store → Answer (Unit {0}) × Store
unfolding find_transaction
stage f id st s =
    if f.get
    then (err get_transaction, s)
    else if not (pending_transaction (find_transaction id s.transactions))
    then (err not_pending, s)
    else insert_operation f id st s

-- The second statement of `Rollback`; the first has been done.
abbrev mark_rolled : Faults → Text → ℕ → Store → Answer (Unit {0}) × Store
mark_rolled f id now s =
    if f.mark
    then (err mark_rolled_back, s)
    else (ok tt, record s { transactions = set_status id rolled_back now s.transactions })

-- `Rollback`, of a pending transaction. Its two statements are not in one database transaction.
unfoldable pub rollback : Faults → Text → ℕ → Store → Answer (Unit {0}) × Store
unfolding find_transaction without_operations set_status
rollback f id now s =
    if f.get
    then (err get_transaction, s)
    else if not (pending_transaction (find_transaction id s.transactions))
    then (err not_pending, s)
    else if f.delete_operations
    then (err delete_operations, s)
    else mark_rolled f id now (record s { operations = without_operations id s.operations })

-- `(status = 'pending' AND created_at < cutoff) OR (status = 'committed' AND updated_at < cutoff)`
-- with `cutoff = now - ttl`.
abbrev pub is_expired : ℕ → ℕ → Transaction → Bool
is_expired ttl now t = elim t.status [
  | pending ↦ ltb (t.created_at + ttl) now
  | committed ↦ ltb (t.updated_at + ttl) now
  | rolled_back ↦ false
]

unfoldable pub live : ℕ → ℕ → List Transaction → List Transaction
live ttl now [] = []
live ttl now (t ∷ ts) =
    let rest = live ttl now ts in if is_expired ttl now t then rest else t ∷ rest

-- `ON DELETE CASCADE`: the operations whose transaction is there.
unfoldable pub cascade : List Transaction → List Operation → List Operation
unfolding find_transaction
cascade ts [] = []
cascade ts (o ∷ os) =
    let rest = cascade ts os in
    if is_found (find_transaction o.transaction_id ts) then o ∷ rest else rest

-- `cleanup`, where its statement succeeds; where it fails nothing is changed.
unfoldable pub cleanup : ℕ → ℕ → Store → Store
unfolding live cascade
cleanup ttl now s =
    let kept = live ttl now s.transactions in
    record s { transactions = kept; operations = cascade kept s.operations }
