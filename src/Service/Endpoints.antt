-- ===== src/Service/Endpoints.antt =====
-- internal/api/router.go: how a request on the routes of transactions and functions passes the same
-- limiter, guard and staging middleware to its handler.
pub mod Intercepted
mod Tests
use rest_trans.Prelude.{ℕ, Bool, true, false, Option, List, [], ◌∷◌, Text, codes}
use rest_trans.Transaction.Types.{Value, Store, Faults}
use rest_trans.Transaction.Handler.{
  Response, Served, serve_start, serve_list, serve_get, serve_commit, serve_rollback,
}
use rest_trans.Transaction.Staging.{post, other, middleware}
use rest_trans.Transaction.Staging.Conditions.{Query}
use rest_trans.Transaction.Staging
use rest_trans.Response.{Reply}
use rest_trans.RateLimit.Manager.{LimiterManager}
use rest_trans.RateLimit.Manager
use rest_trans.Router.{Verdict, pass, abort, method_guard}
use rest_trans.Api.Types.{Request}
use rest_trans.Rpc.{Caller, handle_rpc}
use rest_trans.Service.{State, Parts}

-- The routes; the last one is of a function, whose name stands in the request.
pub data Endpoint : Type 0 where
  start list : Endpoint
  get commit rollback : Text → Endpoint
  call : Request → Endpoint

abbrev pub is_post : Endpoint → Bool
is_post list = false
is_post (get id) = false
is_post e = true

abbrev method_name : Bool → Text
method_name true = codes "POST"
method_name false = codes "GET"

abbrev pub staged_method : Bool → Staging.Method
staged_method true = post
staged_method false = other

-- Only the route of a function is registered where there is no manager.
abbrev pub is_call : Endpoint → Bool
is_call (call r) = true
is_call e = false

-- A request, with the header, the body and the query as the middleware reads them.
pub record Arrival : Type 0 where
  pub ip : Text
  pub schema : Text
  pub endpoint : Endpoint
  pub header : Text
  pub body : Staging.Body
  pub query : Option Query

-- What a handler takes from outside: the faults of its calls, a new identifier, the time and its
-- print.
pub record Outside : Type 0 where
  pub check : Faults
  pub faults : Faults
  pub new_id : Text
  pub now : ℕ
  pub stamp : Value

pub data Answered : Type 0 where
  refused : Reply → Answered
  staged : Staging.Reply → Answered
  answered : Response → Answered
  called : Reply → Answered
  unregistered : Answered

-- None of these routes has a parameter `table`.
abbrev pub staging_of : Arrival → Staging.Request
staging_of a = record {
  header = a.header;
  method = staged_method (is_post a.endpoint);
  schema = a.schema;
  table = [];
  body = a.body;
  query = a.query;
}

module _ {L S : Type 0} (p : Parts L S) (caller : Caller S) where
  abbrev pub kept : State L S → Response × Store → Answered × State L S
  kept s (response, store) = (answered response, record s { transactions = store })

  abbrev pub of_served : State L S → Served S → Answered × State L S
  of_served s x = (answered x.response, record s { transactions = x.store; rows = x.rows })

  abbrev pub of_call : State L S → Reply × S → Answered × State L S
  of_call s (reply, rows) = (called reply, record s { rows = rows })

  -- The handlers of the routes.
  unfoldable pub answer : Outside → Text → Endpoint → State L S → Answered × State L S
  unfolding serve_start serve_list serve_get serve_commit serve_rollback handle_rpc
  answer o schema start s = kept s (serve_start o.faults o.new_id schema o.now s.transactions)
  answer o schema list s = (answered (serve_list o.faults schema s.transactions), s)
  answer o schema (get id) s = (answered (serve_get o.faults id s.transactions), s)
  answer o schema (commit id) s =
      of_served s (serve_commit p.target o.check o.faults id o.now s.transactions s.rows)
  answer o schema (rollback id) s =
      of_served s (serve_rollback p.target o.check o.faults id o.now o.stamp s.transactions s.rows)
  answer o schema (call r) s = of_call s (handle_rpc caller p.schemas r s.rows)

  -- What follows the staging middleware.
  abbrev pub passed_on :
      Outside → Arrival → State L S → Staging.Reply × Store → Answered × State L S
  passed_on o a s (Staging.next, store) =
      answer o a.schema a.endpoint (record s { transactions = store })
  passed_on o a s (Staging.failed status code, store) =
      (staged (Staging.failed status code), record s { transactions = store })
  passed_on o a s (Staging.accepted id, store) =
      (staged (Staging.accepted id), record s { transactions = store })

  abbrev pub without_manager : Outside → Arrival → State L S → Bool → Answered × State L S
  without_manager o a s true = answer o a.schema a.endpoint s
  without_manager o a s false = (unregistered, s)

  abbrev pub routed :
      Faults → (ℕ → Faults) → Outside → Arrival → State L S → Bool → Answered × State L S
  routed check fs o a s true =
      passed_on o a s (middleware p.target (fs 0) check fs (staging_of a) s.transactions s.rows)
  routed check fs o a s false = without_manager o a s (is_call a.endpoint)

  abbrev pub allowed :
      Faults → (ℕ → Faults) → Outside → Arrival → State L S → Verdict → Answered × State L S
  allowed check fs o a s (abort reply) = (refused reply, s)
  allowed check fs o a s pass = routed check fs o a s p.transactions_on

  abbrev pub counted :
      Faults
      → (ℕ → Faults)
      → Outside
      → Arrival
      → State L S
      → LimiterManager L × Verdict
      → Answered × State L S
  counted check fs o a s (limits, abort reply) = (refused reply, record s { limits = limits })
  counted check fs o a s (limits, pass) =
      allowed check fs o a (record s { limits = limits })
        (method_guard p.schemas p.config a.schema [] (method_name (is_post a.endpoint)))

  -- A request at a time; `check` and `fs` are the faults of the middleware's calls.
  unfoldable pub serve_endpoint :
      Faults → (ℕ → Faults) → Outside → Arrival → State L S → Answered × State L S
  unfolding answer method_guard middleware Manager.middleware
  serve_endpoint check fs o a s =
      counted check fs o a s (Manager.middleware p.bucket s.limits a.ip [] o.now)
