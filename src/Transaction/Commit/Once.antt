-- ===== src/Transaction/Commit/Once.antt =====
-- A commit that has succeeded cannot be made once more.
use rest_trans.Prelude.{ℕ, ◌≡◌, sym, ap, ◌∙◌, inl, inr, Text, some, true}
use rest_trans.Transaction.Types.{pending, committed, Store, Target, Faults, ok}
use rest_trans.Transaction.Manager.{find_transaction, pending_transaction}
use rest_trans.Transaction.Commit.{commit}
use rest_trans.Transaction.Commit.Atomic.{IsUndone, commit-Ends}
use rest_trans.Transaction.Handler.Done.{commit_ok}
use rest_trans.Transaction.Invariant.Status.{status_in, pending-status}

not_both :
    (id : Text) (s : Store)
    → status_in id s.transactions ≡ some committed
    → pending_transaction (find_transaction id s.transactions) ≡ true
    → pending ≡ committed
not_both id s h p = let q = pending-status (find_transaction id s.transactions) p in cc

-- After a commit that succeeded, a further commit of the same transaction fails and changes neither
-- the client's rows nor any transaction: no staged operation is applied twice.
pub commit_once :
    {S : Type 0} (db : Target S) (f f' : Faults) (id : Text) (now now' : ℕ) (s : Store) (rows : S)
    → (commit db f id now s rows).result ≡ ok tt
    → IsUndone db id now'
        (commit db f id now s rows).store
        (commit db f id now s rows).rows
        (commit db f' id now' (commit db f id now s rows).store (commit db f id now s rows).rows)
commit_once db f f' id now now' s rows h =
    let first = commit db f id now s rows in
    let is = (commit_ok db f id now s rows h).0 in
    elim (commit-Ends db f' id now' first.store first.rows) [
      | inl e ↦ let no = not_both id first.store is e.was_pending in cc
      | inr (inl e) ↦ e
      | inr (inr e) ↦
          let no = not_both id first.store is (
            sym (ap (λ ts. pending_transaction (find_transaction id ts)) e.status_kept)
            ∙ e.still_pending) in
          cc
    ]
