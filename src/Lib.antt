-- ===== src/Lib.antt =====
-- Verification of rest-trans, a REST interface to PostgreSQL with transactions that clients stage.
--
-- A request names a table. Its query string is parsed into filters, groups, searches, an order and a
-- selection (internal/query/params.go), and these become SQL with numbered placeholders and the
-- arguments for them (internal/query/builder.go), with the tables that introspection found
-- (internal/schema/schema.go). A client may also open a transaction: its writes are then taken by a
-- middleware (internal/transaction/middleware.go) and staged as SQL in two tables, and the manager
-- (internal/transaction/manager.go) commits them together, throws them away, or undoes them after
-- the commit. The routes over it are in internal/transaction/handler.go. Changes of tables reach
-- clients that listen by a hub (internal/notification/hub.go).
--
-- The files:
--   Prelude           the names and lemmas that all share: lists, integers, results; Prelude/Strings
--                     is the part of Go's `strings` and `strconv` that the program calls
--   Sql               SQL as fragments; a placeholder is kept apart from the text, and `render` is
--                     the text that the program builds. Sql/Numbering: the numbers of placeholders
--   Schema            Table, its methods, and SchemaStore (schema.go)
--   Query/Operator .. Query/Parse
--                     params.go: Operator, Params (the data), Scan (splitLogicalConditions,
--                     splitSelectParts), Filters (parseFilterWithPrefix, parseFtsFilter,
--                     parseCondition), Logical (parseLogicalFilter), Select (parseSelect), Order
--                     (parseOrder), Parse (splitQuery, Parse)
--   Query/InValues, Query/Builder
--                     builder.go: InValues (parseInValues), Where (buildWhere and its conditions),
--                     Select (BuildSelect, BuildCount), Write (BuildInsert, BuildUpsert,
--                     BuildUpdate, BuildDelete)
--   Transaction/Types the rows of rest_transactions and rest_transaction_operations, and the
--                     database as a parameter
--   Transaction/Manager, Commit, Undo
--                     manager.go: Start, Get, GetOperations, List, Stage, Rollback, cleanup; Commit;
--                     CaptureSnapshot and RollbackPostCommit
--   Transaction/Statements, Staging, Handler
--                     the statements that are staged; Middleware; the routes
--   Transaction/Invariant
--                     what always holds of the two tables, over the step relation of the manager
--   Notification/Hub  hub.go: the hub that hands the events of a channel to its subscribers
--   Notification/Channels
--                     listener.go: the channels that it listens for; internal/api/sse.go: HandleSSE
--   Api               handler.go: parseParams, executeCount's statement, buildWhereFromParams
--   Api/Types         what the handlers share: resolveTable, bodies, columns, arguments, early
--                     returns (`Checked`), and the database as a parameter
--   Api/Reads, Post, Put, Writes
--                     HandleGet, HandleHead and HandleOptions; HandlePost; HandlePut; HandlePatch and
--                     HandleDelete. Each handler that writes is a statement that is prepared
--                     (`prepare_post` and so on) and then executed
--   Api/Routes        the four methods that write, as one
--   ApiErrors         internal/error/error.go
--   Response, Response/Range
--                     internal/response/response.go: the answers; ranges of rows
--   Config            internal/config/config.go
--   Router            internal/api/router.go: methodGuard, corsMiddleware, the tables of /info
--   RateLimit, RateLimit/Manager
--                     internal/ratelimit: Limiter; LimiterManager and its middleware
--   Service           how a request on a table passes the limiter, the guard and the staging
--                     middleware to its handler (NewRouter); Service/Endpoints has the routes of
--                     transactions and functions
--   Rpc               internal/rpc/handler.go; Schema/Functions is internal/schema/functions.go
--   Introspect        internal/schema/introspect.go; Introspect/Watcher is watcher.go
--   OpenApi           internal/openapi/openapi.go
--   Startup           cmd/rest-trans/main.go: retryPingDB and the first reading of the schemas
-- A module's children hold what is proved of it; modules named Tests hold runs on concrete input.
--
-- How the code is modelled:
--   A text is the list of its code points, so inputs are valid UTF-8. ToLower and ToUpper are exact
--   where the result is compared with ASCII words. An int is an integer; it wraps around
--   where the program computes with numbers that a client sends (`int64`, in Response/Range), and
--   nowhere else, as the program only counts up from 0. A map is an association list in some order of its keys;
--   `parse` takes the order in which Go visits the map as a parameter, and the rows of a staged
--   statement are visited in the order of their list. An error of the
--   query language or of the manager is a value of `Error` or `Failure`, and `error_message` is the
--   text of the former; where the program would dereference a nil table the model answers
--   `nil_table`. A method that changes state returns the state that it leaves on its errors too.
--   parseLogicalFilter calls itself on a shorter text; `parse_logical` counts those calls down from
--   a fuel and `out_of_fuel` is an error of the model alone. The length of the text plus one is
--   enough, as each call is on a shorter text.
--   The two tables of the manager are lists, and each SQL statement on them is a function; the
--   foreign key's cascade is `cascade`. The client's tables are a parameter `S` with the statements
--   that run on them (`Target`), where `none` is an error of the driver, and `Faults` says which
--   other calls of the database fail in a run. Nothing is assumed of either. `S` has no part in the
--   manager's own two tables, though introspection lists these as it does any other: what is proved
--   of them is for writes of the manager alone. What is stored as JSON
--   is kept decoded; a number is its literal. Times count from some origin. Calls of the manager do
--   not overlap: the lock that Commit takes is not modelled as one. Nor do calls of the hub, whose
--   clients are numbers for their pointers; the choice of a `select` is a parameter.
--   The handlers' database is a parameter too (`Database`): what Exec, Query and a count answer, and
--   the rows that they leave. A body is given as what reading and decoding it gives, a value that the
--   driver scans with what JSON makes of it. A panic is answered by 500, as gin's Recovery does.
--   The token bucket of golang.org/x/time/rate is a parameter (`TokenBucket`), and so are the answers
--   of PostgreSQL's catalogue (`Catalogue`), which may fail or end in an error. A floating-point
--   number is its literal. The request of Service holds two views of one request: what the staging
--   middleware decodes and what the handlers do.
--
-- Not modelled: the connection that listens for notifications, the registration of routes, logging,
-- metrics, the pages for people, the reading of YAML and the wiring of main, which are I/O and glue;
-- and the triggers, which are PL/pgSQL text.
mod Prelude
pub mod Sql
pub mod Schema
pub mod Query
pub mod Transaction
pub mod Notification
pub mod ApiErrors
pub mod Response
pub mod Config
pub mod Router
pub mod RateLimit
pub mod Rpc
pub mod Introspect
pub mod OpenApi
pub mod Startup
pub mod Service
pub mod Api
