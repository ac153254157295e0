-- ===== src/Transaction/Types.antt =====
-- The rows of the two tables of internal/transaction/migration.go, and the database behind them.
use rest_trans.Prelude.{ℕ, Bool, Option, List, Text}

-- A JSON value. A number is its literal, an array or object its text.
pub data Value : Type 0 where
  null : Value
  boolean : Bool → Value
  number : Text → Value
  string : Text → Value
  compound : Text → Value

-- A row as a map from columns, in some order of its keys.
abbrev pub Row : Type 0
Row = List (Text × Value)

pub data Status : Type 0 where
  pending committed rolled_back : Status

-- A row of `rest_transactions`. Times count from some origin.
pub record Transaction : Type 0 where
  pub id : Text
  pub schema : Text
  pub status : Status
  pub created_at : ℕ
  pub updated_at : ℕ

pub data Verb : Type 0 where
  insert update delete : Verb

-- A row of `rest_transaction_operations`. What the source keeps as JSON is kept decoded; `none` is
-- the NULL of the database.
pub record Operation : Type 0 where
  pub id : ℕ
  pub transaction_id : Text
  pub operation : Verb
  pub table_name : Text
  pub sql_query : Text
  pub params : List Value
  pub before_state : Option (List Row)
  pub committed_state : Option (List Row)
  pub row_ids : Option (List Value)

-- Both tables, in the order of insertion, and the next value of the operations' serial number.
pub record Store : Type 0 where
  pub transactions : List Transaction
  pub operations : List Operation
  pub next_id : ℕ

-- PostgreSQL on the client's tables, whose contents are an `S`. `none` is an error of the driver.
-- The two tables above are not among them: a statement of a client that writes these has no model.
-- `print_value` is fmt's `%v` of a decoded JSON value, whose floating-point numbers have no model.
pub record Target (S : Type 0) : Type 0 where
  pub exec : Text → List Value → S → Option S
  pub insert_returning : Text → List Value → S → Option (S × ℕ)
  pub read_row : Text → Value → S → Option Row
  pub select_rows : Text → List Value → S → Option (List Row)
  pub print_value : Value → Text

-- The calls of the database that fail in a run of an operation.
pub record Faults : Type 0 where
  pub get : Bool
  pub list_transactions : Bool
  pub insert_row : Bool
  pub delete_operations : Bool
  pub begin_lock : Bool
  pub lock : Bool
  pub read_operations : Bool
  pub begin_target : Bool
  pub commit_target : Bool
  pub mark : Bool
  pub commit_lock : Bool
  pub write_row_ids : ℕ → Bool
  pub write_committed : ℕ → Bool

-- The errors of the manager.
pub data Failure : Type 0 where
  create_transaction list_transactions get_transaction not_pending not_committed stage_operation :
      Failure
  begin_lock lock_transaction read_operations begin_target : Failure
  execute_op : ℕ → Failure
  commit_target mark_committed commit_lock delete_operations mark_rolled_back : Failure
  capture_snapshot unmarshal_row_ids rollback_insert rollback_update rollback_delete : Failure
  cannot_read_row : Value → Failure
  missing_column changed_column : Value → Text → Failure

-- A method's result beside the state that it leaves, on its error paths too.
pub data Answer {ℓ} (A : Type ℓ) : Type ℓ where
  ok : A → Answer A
  err : Failure → Answer A
