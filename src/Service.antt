-- ===== src/Service.antt =====
-- internal/api/router.go: how a request on `/:schema/:table` passes the limiter, the guard and the
-- staging middleware to its handler.
pub mod Endpoints
pub mod Isolated
pub mod Tests
use rest_trans.Prelude.{ℕ, Bool, true, false, Option, none, some, List, [], ◌∷◌, Text, codes}
use rest_trans.Schema.{SchemaStore}
use rest_trans.Config.{Config}
use rest_trans.Query.Parse.{Pairs}
use rest_trans.Transaction.Types.{Store, Target, Faults}
use rest_trans.Transaction.Staging.{post, put, patch, del, other, middleware}
use rest_trans.Transaction.Staging
use rest_trans.Response.{Reply}
use rest_trans.RateLimit.{TokenBucket}
use rest_trans.RateLimit.Manager.{LimiterManager}
use rest_trans.RateLimit.Manager
use rest_trans.Router.{Verdict, pass, abort, method_guard}
use rest_trans.Api.Types.{Request, Database}
use rest_trans.Api.Reads.{handle_get, handle_head, handle_options}
use rest_trans.Api.Routes.{handle_write}
use rest_trans.Api.Routes

-- The methods that the router registers for a table.
pub data Verb : Type 0 where
  get head options : Verb
  write : Routes.Method → Verb

abbrev pub method_name : Verb → Text
method_name get = codes "GET"
method_name head = codes "HEAD"
method_name options = codes "OPTIONS"
method_name (write Routes.post) = codes "POST"
method_name (write Routes.put) = codes "PUT"
method_name (write Routes.patch) = codes "PATCH"
method_name (write Routes.delete) = codes "DELETE"

abbrev pub staged_method : Verb → Staging.Method
staged_method (write Routes.post) = post
staged_method (write Routes.put) = put
staged_method (write Routes.patch) = patch
staged_method (write Routes.delete) = del
staged_method v = other

-- A request as the middleware decodes it, and as the handlers do.
pub record Incoming : Type 0 where
  pub ip : Text
  pub verb : Verb
  pub staging : Staging.Request
  pub request : Request

-- Who has answered.
pub data Outcome : Type 0 where
  refused : Reply → Outcome
  staged : Staging.Reply → Outcome
  handled : Reply → Outcome

-- What requests change: the limiters, the tables of the transactions, and the client's rows.
pub record State (L S : Type 0) : Type 0 where
  pub limits : LimiterManager L
  pub transactions : Store
  pub rows : S

-- The parts that do not change; `transactions_on` says that there is a manager.
pub record Parts (L S : Type 0) : Type 0 where
  pub bucket : TokenBucket L
  pub database : Database S
  pub target : Target S
  pub schemas : SchemaStore
  pub config : Config
  pub visit : Pairs → Pairs
  pub transactions_on : Bool

module _ {L S : Type 0} (p : Parts L S) where
  -- The handler of the route.
  unfoldable pub handle : Verb → Request → S → Reply × S
  unfolding handle_get handle_head handle_options handle_write
  handle get r rows = handle_get p.database p.visit p.schemas r rows
  handle head r rows = (handle_head p.database p.visit p.schemas r rows, rows)
  handle options r rows = (handle_options p.schemas r, rows)
  handle (write m) r rows = handle_write p.visit m p.database p.schemas r rows

  abbrev pub with_rows : State L S → Reply × S → Outcome × State L S
  with_rows s (reply, rows) = (handled reply, record s { rows = rows })

  -- What follows the staging middleware: the handler, where it has passed the request on.
  abbrev pub after_staging : Incoming → State L S → Staging.Reply × Store → Outcome × State L S
  after_staging i s (Staging.next, store) =
      with_rows (record s { transactions = store }) (handle i.verb i.request s.rows)
  after_staging i s (Staging.failed status code, store) =
      (staged (Staging.failed status code), record s { transactions = store })
  after_staging i s (Staging.accepted id, store) =
      (staged (Staging.accepted id), record s { transactions = store })

  abbrev pub after_guard : Faults → (ℕ → Faults) → Incoming → State L S → Bool → Outcome × State L S
  after_guard check fs i s false = with_rows s (handle i.verb i.request s.rows)
  after_guard check fs i s true = after_staging i s (
      middleware p.target (fs 0) check fs (record i.staging { method = staged_method i.verb })
        s.transactions s.rows)

  abbrev pub guarded : Faults → (ℕ → Faults) → Incoming → State L S → Verdict → Outcome × State L S
  guarded check fs i s (abort reply) = (refused reply, s)
  guarded check fs i s pass = after_guard check fs i s p.transactions_on

  abbrev pub limited :
      Faults
      → (ℕ → Faults)
      → Incoming
      → State L S
      → LimiterManager L × Verdict
      → Outcome × State L S
  limited check fs i s (limits, abort reply) = (refused reply, record s { limits = limits })
  limited check fs i s (limits, pass) =
      guarded check fs i (record s { limits = limits })
        (method_guard p.schemas p.config i.request.schema i.request.table (method_name i.verb))

  -- A request at a time; `check` and `fs` are the faults of the calls of the manager.
  unfoldable pub serve : Faults → (ℕ → Faults) → ℕ → Incoming → State L S → Outcome × State L S
  unfolding handle method_guard middleware Manager.middleware
  serve check fs now i s =
      limited check fs i s (Manager.middleware p.bucket s.limits i.ip i.request.table now)
