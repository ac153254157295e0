-- ===== src/Service/Tests.antt =====
-- Runs of the pipeline of internal/api/router.go.
use rest_trans.Prelude.{ℕ, ◌+◌, ◌≡◌, refl, true, false, none, some, [], ◌∷◌, Text, codes}
use rest_trans.Prelude.Int.{pos_part}
use rest_trans.Schema.{SchemaStore, Table, get_table}
use rest_trans.Config.Tests.{plain_config}
use rest_trans.Transaction.Types.{Faults}
use rest_trans.Transaction.Staging.{scalar}
use rest_trans.Transaction.Staging
use rest_trans.RateLimit.Manager.{new_manager}
use rest_trans.Api.Tests.{books, shop, renaming, counting, no_order}
use rest_trans.Api.Routes
use rest_trans.Service.{Incoming, State, Parts, write, serve}
use rest_trans.Service.Isolated.{KeepsRows, KeepsTransactions, serve-KeepsRows, serve-view}

abbrev pub no_faults : Faults
no_faults = record {
  get = false;
  list_transactions = false;
  insert_row = false;
  delete_operations = false;
  begin_lock = false;
  lock = false;
  read_operations = false;
  begin_target = false;
  commit_target = false;
  mark = false;
  commit_lock = false;
  write_row_ids = λ i. false;
  write_committed = λ i. false;
}

abbrev view_of_books : Table
view_of_books = record books { is_view = true }

abbrev viewed : SchemaStore
viewed = record shop { schemas = (codes "shop", (codes "books", view_of_books) ∷ []) ∷ [] }

abbrev pub parts : SchemaStore → Parts ℕ ℕ
parts schemas = record {
  bucket = record { fresh = λ rate burst. pos_part burst; take_token = λ n now. (n, true) };
  database = counting;
  target = record {
    exec = λ text args s. some (s + 1);
    insert_returning = λ text args s. some (s + 1, 1);
    read_row = λ text v s. none;
    select_rows = λ text args s. some [];
    print_value = λ v. [];
  };
  schemas = schemas;
  config = plain_config;
  visit = no_order;
  transactions_on = true;
}

abbrev incoming : Text → Incoming
incoming header = record {
  ip = codes "10.0.0.1";
  verb = write Routes.patch;
  staging = record {
    header = header;
    method = Staging.Method.other;
    schema = codes "shop";
    table = codes "books";
    body = scalar;
    query = some [];
  };
  request = renaming;
}

abbrev pub start : State ℕ ℕ
start = record {
  limits = new_manager plain_config.rate_limit;
  transactions = record { transactions = []; operations = []; next_id = 1 };
  rows = 0;
}

-- With no header the statement runs.
unnamed_runs : (serve (parts shop) no_faults (λ n. no_faults) 1 (incoming []) start).1.rows ≡ 1
unfolding serve new_manager
unnamed_runs = refl

serve-KeepsRows_example :
    (serve (parts shop) no_faults (λ n. no_faults) 1 (incoming (codes "tx")) start).1.rows ≡ 0
serve-KeepsRows_example =
    serve-KeepsRows (parts shop) no_faults (λ n. no_faults) 1 (incoming (codes "tx")) start
      Routes.patch refl refl refl

view_found : get_table viewed (codes "shop") (codes "books") ≡ some view_of_books
unfolding get_table
view_found = refl

serve-view_example :
    KeepsRows
      (parts viewed)
      start
      (serve (parts viewed) no_faults (λ n. no_faults) 1 (incoming (codes "tx")) start)
    × KeepsTransactions
        (parts viewed)
        start
        (serve (parts viewed) no_faults (λ n. no_faults) 1 (incoming (codes "tx")) start)
serve-view_example =
    serve-view (parts viewed) no_faults (λ n. no_faults) 1 (incoming (codes "tx")) start
      Routes.patch view_of_books refl view_found refl refl
