-- ===== src/Transaction/Staging.antt =====
-- `Middleware` of internal/transaction/middleware.go: a write with the header
-- `Authorization-Transaction` is staged and does not reach the other handlers.
pub mod Answers
pub mod Appends
pub mod Conditions
pub mod Stages
use rest_trans.Prelude.{
  ℕ, zero, suc, ◌+◌, Bool, true, false, ◌&&◌, not, Option, none, some, List, [], ◌∷◌, ◌++◌, Text,
  codes, is_empty, has_prefix, split_n, if◌then◌else◌,
}
use rest_trans.Sql.{Sql, raw, lit, placeholder, join_sql, render, is_blank}
use rest_trans.Schema.{find}
use rest_trans.Transaction.Types.{
  Value, string, Row, Verb, insert, update, delete, Store, Target, Faults, Failure, Answer, ok, err,
}
use rest_trans.Transaction.Manager.{find_transaction, pending_transaction, Staged, stage}
use rest_trans.Transaction.Statements.{
  Parts, extract_insert_parts, extract_update_parts, build_insert_query, build_update_query,
  build_delete_query,
}
use rest_trans.Transaction.Undo.{Snapshot, capture}
use rest_trans.Transaction.Staging.Conditions.{Query, extract_where_clause, extract_id_param}

pub data Method : Type 0 where
  post put patch del other : Method

-- The body, read and decoded: an item of an array that is no object is `none`. An empty body is
-- `scalar`, as every JSON value that is neither an array nor an object.
pub data Body : Type 0 where
  unreadable malformed scalar : Body
  array : List (Option Row) → Body
  object : Row → Body

pub record Request : Type 0 where
  pub header : Text
  pub method : Method
  pub schema : Text
  pub table : Text
  pub body : Body
  pub query : Option Query

-- `next` hands the request on; the others answer it, with a status and a code.
pub data Reply : Type 0 where
  next : Reply
  failed : ℕ → Text → Reply
  accepted : Text → Reply

unfoldable pub objects : List (Option Row) → List Row
objects [] = []
objects (none ∷ items) = objects items
objects (some row ∷ items) = row ∷ objects items

-- The switch on the body's type.
unfoldable pub items_of : Body → List Row
unfolding objects
items_of (array items) = objects items
items_of (object row) = row ∷ []
items_of _ = []

abbrev with_id : Text → List Value → List Value
with_id [] vals = vals
with_id (c ∷ t) vals = vals ++ string (c ∷ t) ∷ []

abbrev pub staged_insert : Text → Row → Staged
staged_insert table item =
    let parts = extract_insert_parts item in
    record {
      operation = insert;
      table_name = table;
      sql_query = render (build_insert_query table parts.clauses parts.marks);
      params = parts.vals;
      before_state = none;
      row_ids = none;
    }

abbrev pub staged_update : Text → Row → Text → Snapshot → Staged
staged_update table item id snapshot =
    let parts = extract_update_parts item in
    record {
      operation = update;
      table_name = table;
      sql_query = render (build_update_query table parts.clauses parts.marks);
      params = with_id id parts.vals;
      before_state = snapshot.before_state;
      row_ids = snapshot.row_ids;
    }

abbrev pub id_args : Text → List Value
id_args [] = []
id_args (c ∷ t) = string (c ∷ t) ∷ []

abbrev pub staged_delete : Text → Text → Snapshot → Staged
staged_delete table id snapshot = record {
  operation = delete;
  table_name = table;
  sql_query = render (build_delete_query table);
  params = id_args id;
  before_state = snapshot.before_state;
  row_ids = snapshot.row_ids;
}

abbrev no_snapshot : Snapshot
no_snapshot = record { before_state = none; row_ids = none }

abbrev pub answer_of : Text → Text → Answer (Unit {0}) × Store → Reply × Store
answer_of code id (err e, s) = (failed 500 code, s)
answer_of code id (ok u, s) = (accepted id, s)

-- The loop of a POST; `fs n` are the faults of its call `n` of `Stage`.
unfoldable pub stage_inserts : (ℕ → Faults) → ℕ → Text → Text → List Row → Store → Reply × Store
unfolding stage extract_insert_parts build_insert_query render
stage_inserts fs n id table [] s = (accepted id, s)
stage_inserts fs n id table (item ∷ items) s =
    let (answer, s') = stage (fs n) id (staged_insert table item) s in
    elim answer [
      | err e ↦ (failed 500 (codes "PGRST314"), s')
      | ok u ↦ stage_inserts fs (n + 1) id table items s'
    ]

abbrev pub is_write : Method → Bool
is_write other = false
is_write _ = true

abbrev pub is_unreadable : Body → Bool
is_unreadable unreadable = true
is_unreadable _ = false

abbrev pub is_malformed : Body → Bool
is_malformed malformed = true
is_malformed _ = false

abbrev pub or_public : Text → Text
or_public [] = codes "public"
or_public (c ∷ t) = c ∷ t

module _ {S : Type 0} (db : Target S) (f : Faults) where
  abbrev pub stage_update : Request → Text → Row → Store → Answer Snapshot → Reply × Store
  stage_update r table item s (err e) = (failed 500 (codes "PGRST317"), s)
  stage_update r table item s (ok snapshot) =
      answer_of (codes "PGRST315") r.header
        (stage f r.header (staged_update table item (extract_id_param r.query) snapshot) s)

  -- The snapshot of an update, where its WHERE clause is not empty.
  unfoldable pub update_snapshot : Text → Request → S → Answer Snapshot
  unfolding extract_where_clause capture join_sql render
  update_snapshot schema r rows =
      let w = extract_where_clause r.query in
      let clause = join_sql (lit " AND ") w.conditions in
      if is_blank clause
      then ok no_snapshot
      else capture db schema r.table (render clause) w.args rows

  abbrev pub stage_delete : Request → Text → Store → Answer Snapshot → Reply × Store
  stage_delete r table s (err e) = (failed 500 (codes "PGRST318"), s)
  stage_delete r table s (ok snapshot) =
      answer_of (codes "PGRST316") r.header
        (stage f r.header (staged_delete table (extract_id_param r.query) snapshot) s)

  unfoldable pub delete_snapshot : Text → Request → S → Answer Snapshot
  unfolding extract_id_param capture
  delete_snapshot schema r rows =
      let id = extract_id_param r.query in
      if is_empty id
      then ok no_snapshot
      else capture db schema r.table (codes "id = $1") (string id ∷ []) rows

  abbrev pub update_first : Text → Text → Request → List Row → Store → S → Reply × Store
  update_first schema table r [] s rows = (accepted r.header, s)
  update_first schema table r (item ∷ items) s rows =
      stage_update r table item s (update_snapshot schema r rows)

  -- The switch on the method.
  abbrev pub dispatch_by : Method → (ℕ → Faults) → Text → Text → Request → Store → S → Reply × Store
  dispatch_by post fs schema table r s rows = stage_inserts fs 0 r.header table (items_of r.body) s
  dispatch_by put fs schema table r s rows = update_first schema table r (items_of r.body) s rows
  dispatch_by patch fs schema table r s rows = update_first schema table r (items_of r.body) s rows
  dispatch_by del fs schema table r s rows = stage_delete r table s (delete_snapshot schema r rows)
  dispatch_by other fs schema table r s rows = (next, s)

  unfoldable pub dispatch : (ℕ → Faults) → Text → Text → Request → Store → S → Reply × Store
  unfolding stage_inserts items_of update_snapshot delete_snapshot stage extract_id_param
      extract_update_parts build_update_query build_delete_query render
  dispatch fs schema table r s rows = dispatch_by r.method fs schema table r s rows

  -- `Middleware`; `check` are the faults of its own call of `Get`.
  unfoldable pub middleware : Faults → (ℕ → Faults) → Request → Store → S → Reply × Store
  unfolding find_transaction dispatch
  middleware check fs r s rows =
      let schema = or_public r.schema in
      if is_empty r.header
      then (next, s)
      else if not (is_write r.method)
      then (next, s)
      else if check.get
      then (failed 500 (codes "PGRST310"), s)
      else if not (pending_transaction (find_transaction r.header s.transactions))
      then (failed 409 (codes "PGRST311"), s)
      else if is_unreadable r.body
      then (failed 400 (codes "PGRST312"), s)
      else if is_malformed r.body
      then (failed 400 (codes "PGRST313"), s)
      else dispatch fs schema (schema ++ (codes "." ++ r.table)) r s rows
