-- ===== src/Transaction/Tests.antt =====
-- Runs of internal/transaction. The client's tables are the list of the statements that have run.
use rest_trans.Prelude.{
  ◌⊎◌, ◌+◌, ◌≡◌, refl, false, List, [], ◌∷◌, ◌++◌, none, some, Text, codes, text_eq, length,
}
use rest_trans.Transaction.Types.{
  number, string, Row, pending, committed, rolled_back, Transaction, insert, update, Operation,
  Store, Target, Faults, ok,
}
use rest_trans.Transaction.Manager.{start, cleanup, rollback, list_pending}
use rest_trans.Transaction.Commit.{Outcome, commit}
use rest_trans.Transaction.Commit.Atomic.{Ends, IsUndone, commit-Ends}
use rest_trans.Transaction.Commit.Once.{commit_once}
use rest_trans.Transaction.Manager.Cleanup.{IsCleaned, cleanup-IsCleaned}
use rest_trans.Transaction.Manager.Pending.{IsListing, list_pending-IsListing}
use rest_trans.Transaction.Manager.Rollback.{RollbackEnds, rollback-RollbackEnds}
use rest_trans.Transaction.Handler.{Served, serve_commit, serve_rollback}
use rest_trans.Transaction.Handler.Done.{
  IsCommitted, serve_commit-IsCommitted, serve_rollback-rolled_back,
}
use rest_trans.Transaction.Undo.{rollback_post_commit}
use rest_trans.Transaction.Staging.{Request, post, object, accepted, stage_inserts, middleware}
use rest_trans.Transaction.Staging.Appends.{
  Extends, middleware-Extends, inserts_of, stage_inserts-accepted,
}
use rest_trans.Transaction.Invariant.{WellFormed}
use rest_trans.Transaction.Invariant.Steps.{Step, Reachable, Reachable-WellFormed}
use rest_trans.Transaction.Invariant.Status.{Moves, status_in, Step-Moves}

abbrev Log : Type 0
Log = List Text

abbrev log : Target Log
log = record {
  exec = λ q ps rows. some (rows ++ q ∷ []);
  insert_returning = λ q ps rows. some (rows ++ q ∷ [], length rows + 1);
  read_row = λ q id rows. none;
  select_rows = λ q ps rows. some [];
  print_value = λ v. [];
}

abbrev no_faults : Faults
no_faults = record {
  get = false;
  list_transactions = false;
  insert_row = false;
  delete_operations = false;
  begin_lock = false;
  lock = false;
  read_operations = false;
  begin_target = false;
  commit_target = false;
  mark = false;
  commit_lock = false;
  write_row_ids = λ n. false;
  write_committed = λ n. false;
}

abbrev empty : Store
empty = record { transactions = []; operations = []; next_id = 1 }

abbrev id : Text
id = codes "t1"

abbrev item : Row
item = (codes "name", string (codes "Ann")) ∷ (codes "age", number (codes "30")) ∷ []

abbrev users : Text
users = codes "public.users"

abbrev one : Transaction
one = record { id = id; schema = codes "public"; status = pending; created_at = 5; updated_at = 5 }

abbrev opened : Store
opened = record empty { transactions = one ∷ [] }

abbrev insert_text : Text
insert_text = codes "INSERT INTO public.users (name, age) VALUES ($1, $2)"

abbrev one_insert : Operation
one_insert = record {
  id = 1;
  transaction_id = id;
  operation = insert;
  table_name = users;
  sql_query = insert_text;
  params = string (codes "Ann") ∷ number (codes "30") ∷ [];
  before_state = none;
  committed_state = none;
  row_ids = none;
}

abbrev filled : Store
filled = record { transactions = one ∷ []; operations = one_insert ∷ []; next_id = 2 }

start_runs : start no_faults id (codes "public") 5 empty ≡ (ok one, opened)
unfolding start
start_runs = refl

abbrev request : Request
request = record {
  header = id;
  method = post;
  schema = [];
  table = codes "users";
  body = object item;
  query = some [];
}

middleware_runs :
    middleware log no_faults no_faults (λ n. no_faults) request opened [] ≡ (accepted id, filled)
unfolding middleware text_eq
middleware_runs = refl

commit_runs : commit log no_faults id 9 filled [] ≡ record {
  result = ok tt;
  store = record {
    transactions = record one { status = committed; updated_at = 9 } ∷ [];
    operations = record one_insert { row_ids = some (number (codes "1") ∷ []) } ∷ [];
    next_id = 2;
  };
  rows = (insert_text ++ codes " RETURNING id") ∷ [];
}
unfolding commit text_eq
commit_runs = refl

commit-Ends_example : Ends log id 9 filled [] (commit log no_faults id 9 filled [])
commit-Ends_example = commit-Ends log no_faults id 9 filled []

abbrev old_row : Row
old_row = (codes "id", number (codes "7")) ∷ (codes "name", string (codes "Bob")) ∷ []

-- A committed transaction: an insertion that made row 1, and an update of row 7.
abbrev committed_two : Store
committed_two = record {
  transactions = record one { status = committed } ∷ [];
  operations =
      record one_insert { row_ids = some (number (codes "1") ∷ []) }
      ∷ record one_insert { id = 2; operation = update; before_state = some (old_row ∷ []) }
      ∷ [];
  next_id = 3;
}

-- The update is undone first.
undo_runs :
    (rollback_post_commit log no_faults id 9 (string []) committed_two []).rows
    ≡ codes "UPDATE public.users SET name = $1 WHERE id = $2"
      ∷ codes "DELETE FROM public.users WHERE id = $1"
      ∷ []
unfolding rollback_post_commit text_eq
undo_runs = refl

middleware-Extends_example :
    Extends id opened (middleware log no_faults no_faults (λ n. no_faults) request opened []).1
middleware-Extends_example =
    middleware-Extends log no_faults no_faults (λ n. no_faults) request opened []

stage_inserts-accepted_example :
    (stage_inserts (λ n. no_faults) 0 id users (item ∷ item ∷ []) opened).1.operations
    ≡ inserts_of id users (item ∷ item ∷ []) 1
unfolding stage_inserts text_eq
stage_inserts-accepted_example =
    stage_inserts-accepted (λ n. no_faults) 0 id users (item ∷ item ∷ []) opened refl

opened-Step : Step log empty [] opened []
unfolding start
opened-Step = Step.started no_faults id (codes "public") 5 empty []

opened-Reachable : Reachable log opened []
opened-Reachable = Reachable.after empty [] opened [] (Reachable.fresh []) opened-Step

Reachable-WellFormed_example : WellFormed opened
Reachable-WellFormed_example = Reachable-WellFormed log opened [] opened-Reachable

Step-Moves_example : Moves (status_in id []) (status_in id (one ∷ []))
Step-Moves_example =
    Step-Moves log id empty [] opened [] (Reachable-WellFormed log empty [] (Reachable.fresh []))
      opened-Step

-- Of a transaction that has expired, one that is committed and one that is rolled back.
abbrev aged : Store
aged = record filled {
  transactions =
      one
      ∷ record one { id = codes "t2"; status = committed; updated_at = 11 }
      ∷ record one { id = codes "t3"; status = rolled_back }
      ∷ [];
}

cleanup-IsCleaned_example : IsCleaned 10 20 aged (cleanup 10 20 aged)
cleanup-IsCleaned_example = cleanup-IsCleaned 10 20 aged

cleanup_runs :
    (cleanup 10 16 filled ≡ record empty { next_id = 2 }) × (cleanup 10 15 filled ≡ filled)
unfolding cleanup text_eq
cleanup_runs = (refl, refl)

rollback-RollbackEnds_example : RollbackEnds id 9 filled (rollback no_faults id 9 filled)
rollback-RollbackEnds_example = rollback-RollbackEnds no_faults id 9 filled

list_pending-IsListing_example : IsListing (codes "public") aged.transactions (one ∷ [])
unfolding list_pending text_eq
list_pending-IsListing_example = list_pending-IsListing no_faults (codes "public") aged refl

serve_commit-IsCommitted_example :
    IsCommitted log no_faults id 9 filled [] (serve_commit log no_faults no_faults id 9 filled [])
unfolding serve_commit text_eq
serve_commit-IsCommitted_example =
    serve_commit-IsCommitted log no_faults no_faults id 9 filled [] refl

abbrev rolling : Served Log
rolling = serve_rollback log no_faults no_faults id 9 (string []) filled []

serve_rollback-rolled_back_example :
    ((status_in id filled.transactions ≡ some pending)
      ⊎ (status_in id filled.transactions ≡ some committed))
    × (status_in id rolling.store.transactions ≡ some rolled_back)
unfolding serve_rollback text_eq
serve_rollback-rolled_back_example =
    serve_rollback-rolled_back log no_faults no_faults id 9 (string []) filled [] refl

abbrev committing : Outcome Log
committing = commit log no_faults id 9 filled []

commit_once_example :
    IsUndone log id 12 committing.store committing.rows
      (commit log no_faults id 12 committing.store committing.rows)
unfolding commit text_eq
commit_once_example = commit_once log no_faults no_faults id 9 12 filled [] refl
