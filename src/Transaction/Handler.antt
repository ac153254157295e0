-- ===== src/Transaction/Handler.antt =====
-- internal/transaction/handler.go: the routes over the manager, with their statuses and codes.
pub mod Done
use rest_trans.Prelude.{
  ℕ, Bool, true, false, not, Option, none, some, List, [], ◌∷◌, Text, codes, if◌then◌else◌,
}
use rest_trans.Transaction.Types.{
  Value, Status, pending, committed, rolled_back, Transaction, Store, Target, Faults, Answer, ok,
  err,
}
use rest_trans.Transaction.Manager.{
  find_transaction, pending_transaction, start, list_pending, rollback,
}
use rest_trans.Transaction.Commit.{Outcome, commit}
use rest_trans.Transaction.Undo.{rollback_post_commit}

-- An answer: its HTTP status, and what its body says.
pub data Response : Type 0 where
  error : ℕ → Text → Response
  created : Text → Response
  found : Transaction → Response
  listed : List Transaction → Response
  done : Status → Response

-- What a route leaves.
pub record Served (S : Type 0) : Type 0 where
  pub response : Response
  pub store : Store
  pub rows : S

abbrev or_public : Text → Text
or_public [] = codes "public"
or_public (c ∷ t) = c ∷ t

abbrev started : Answer Transaction × Store → Response × Store
started (err e, s) = (error 500 (codes "PGRST300"), s)
started (ok t, s) = (created t.id, s)

-- `Handler.Start`; `id` is what `uuid.New` gives.
unfoldable pub serve_start : Faults → Text → Text → ℕ → Store → Response × Store
unfolding start
serve_start f id schema now s = started (start f id (or_public schema) now s)

abbrev listed_by : Answer (List Transaction) → Response
listed_by (err e) = error 500 (codes "PGRST301")
listed_by (ok ts) = listed ts

-- `Handler.List`.
unfoldable pub serve_list : Faults → Text → Store → Response
unfolding list_pending
serve_list f schema s = listed_by (list_pending f (or_public schema) s)

abbrev got : Option Transaction → Response
got none = error 404 (codes "PGRST303")
got (some t) = found t

-- `Handler.Get`.
unfoldable pub serve_get : Faults → Text → Store → Response
unfolding find_transaction
serve_get f id s =
    if f.get then error 500 (codes "PGRST302") else got (find_transaction id s.transactions)

abbrev pub served : Text → Status → Answer (Unit {0}) → Response
served code status (err e) = error 409 code
served code status (ok u) = done status

module _ {S : Type 0} where
  abbrev unchanged : ℕ → Text → Store → S → Served S
  unchanged status code s rows = record { response = error status code; store = s; rows = rows }

  abbrev pub committed_by : Outcome S → Served S
  committed_by o = record {
    response = served (codes "PGRST306") committed o.result;
    store = o.store;
    rows = o.rows;
  }

  -- `Handler.Commit`; `check` are the faults of its own call of `Get`.
  unfoldable pub serve_commit : Target S → Faults → Faults → Text → ℕ → Store → S → Served S
  unfolding find_transaction commit
  serve_commit db check f id now s rows =
      if check.get
      then unchanged 500 (codes "PGRST304") s rows
      else if not (pending_transaction (find_transaction id s.transactions))
      then unchanged 409 (codes "PGRST305") s rows
      else committed_by (commit db f id now s rows)

  abbrev pub rolled_by : S → Answer (Unit {0}) × Store → Served S
  rolled_by rows (a, s) = record {
    response = served (codes "PGRST309") rolled_back a;
    store = s;
    rows = rows;
  }

  abbrev pub undone_by : Outcome S → Served S
  undone_by o = record {
    response = served (codes "PGRST320") rolled_back o.result;
    store = o.store;
    rows = o.rows;
  }

  abbrev pub roll_back_by : Target S → Faults → Text → ℕ → Value → Store → S → Status → Served S
  roll_back_by db f id now stamp s rows pending = rolled_by rows (rollback f id now s)
  roll_back_by db f id now stamp s rows committed =
      undone_by (rollback_post_commit db f id now stamp s rows)
  roll_back_by db f id now stamp s rows rolled_back = unchanged 409 (codes "PGRST308") s rows

  abbrev pub roll_back_at :
      Target S → Faults → Text → ℕ → Value → Store → S → Option Transaction → Served S
  roll_back_at db f id now stamp s rows none = unchanged 404 (codes "PGRST303") s rows
  roll_back_at db f id now stamp s rows (some t) = roll_back_by db f id now stamp s rows t.status

  -- `Handler.Rollback`.
  unfoldable pub serve_rollback :
      Target S → Faults → Faults → Text → ℕ → Value → Store → S → Served S
  unfolding find_transaction rollback rollback_post_commit
  serve_rollback db check f id now stamp s rows =
      if check.get
      then unchanged 500 (codes "PGRST307") s rows
      else roll_back_at db f id now stamp s rows (find_transaction id s.transactions)
