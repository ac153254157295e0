-- ===== src/Service/Endpoints/Tests.antt =====
-- Runs of the routes of transactions and functions.
use rest_trans.Prelude.{ℕ, ◌+◌, ◌≡◌, refl, some, [], ◌∷◌, Text, codes}
use rest_trans.Transaction.Types.{Transaction, pending, committed, null}
use rest_trans.Transaction.Staging.{scalar}
use rest_trans.Transaction.Handler.{done}
use rest_trans.Api.Tests.{shop}
use rest_trans.Api.Types.{query_error}
use rest_trans.RateLimit.Manager.{new_manager}
use rest_trans.Rpc.{Caller}
use rest_trans.Service.{State}
use rest_trans.Service.Tests.{no_faults, parts, start}
use rest_trans.Service.Endpoints
use rest_trans.Service.Endpoints.{Arrival, Outside, answered, commit, serve_endpoint}
use rest_trans.Service.Endpoints.Intercepted.{Intercepted, serve_endpoint-Intercepted}

abbrev begun : Transaction
begun = record {
  id = codes "tx";
  schema = codes "shop";
  status = pending;
  created_at = 0;
  updated_at = 0;
}

abbrev with_transaction : State ℕ ℕ
with_transaction = record start {
  transactions = record { transactions = begun ∷ []; operations = []; next_id = 1 };
}

abbrev outside : Outside
outside = record {
  check = no_faults;
  faults = no_faults;
  new_id = codes "new";
  now = 5;
  stamp = null;
}

abbrev committing : Text → Arrival
committing header = record {
  ip = codes "10.0.0.1";
  schema = codes "shop";
  endpoint = commit (codes "tx");
  header = header;
  body = scalar;
  query = some [];
}

abbrev unreachable : Caller ℕ
unreachable = record { call = λ text args s. (query_error (codes "no database"), s + 1) }

-- With no header the transaction is committed.
plain_commit :
    (serve_endpoint
      (parts shop)
      unreachable
      no_faults
      (λ n. no_faults)
      outside
      (committing [])
      with_transaction).0
    ≡ answered (done committed)
unfolding serve_endpoint new_manager
plain_commit = refl

serve_endpoint-Intercepted_example : Intercepted (committing (codes "tx")) with_transaction (
    serve_endpoint
      (parts shop)
      unreachable
      no_faults
      (λ n. no_faults)
      outside
      (committing (codes "tx"))
      with_transaction)
serve_endpoint-Intercepted_example =
    serve_endpoint-Intercepted (parts shop) unreachable no_faults (λ n. no_faults) outside
      (committing (codes "tx")) with_transaction refl refl refl

abbrev beginning : Arrival
beginning = record (committing []) { endpoint = Endpoints.Endpoint.start }

abbrev after_start : State ℕ ℕ
after_start =
    (serve_endpoint (parts shop) unreachable no_faults (λ n. no_faults) outside beginning start).1

-- A transaction has been begun.
one_begun :
    after_start.transactions.transactions
    ≡ record begun { id = codes "new"; created_at = 5; updated_at = 5 } ∷ []
unfolding serve_endpoint new_manager
one_begun = refl
