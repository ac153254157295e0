-- ===== src/Transaction/Invariant/Steps.antt =====
-- The manager as a step relation: every call that its clients and its timer make, with any faults
-- and at any time, on its two tables and the client's. Calls do not overlap.
use rest_trans.Prelude.{ℕ, [], Text, arith}
use rest_trans.Transaction.Types.{Value, Store, Target, Faults}
use rest_trans.Transaction.Manager.{start, rollback, cleanup, Staged, stage}
use rest_trans.Transaction.Commit.{commit}
use rest_trans.Transaction.Undo.{rollback_post_commit}
use rest_trans.Transaction.Invariant.{WellFormed}
use rest_trans.Transaction.Invariant.Kept.{
  start-WellFormed, stage-WellFormed, rollback-WellFormed, cleanup-WellFormed, commit-WellFormed,
  rollback_post_commit-WellFormed,
}

module _ {S : Type 0} (db : Target S) where
  pub data Step : Store → S → Store → S → Type 0 where
    started :
        (f : Faults) (id schema : Text) (now : ℕ) (s : Store) (rows : S)
        → Step s rows (start f id schema now s).1 rows
    staged :
        (f : Faults) (id : Text) (st : Staged) (s : Store) (rows : S)
        → Step s rows (stage f id st s).1 rows
    committed :
        (f : Faults) (id : Text) (now : ℕ) (s : Store) (rows : S)
        → Step s rows (commit db f id now s rows).store (commit db f id now s rows).rows
    rolled_back :
        (f : Faults) (id : Text) (now : ℕ) (s : Store) (rows : S)
        → Step s rows (rollback f id now s).1 rows
    undone :
        (f : Faults) (id : Text) (now : ℕ) (stamp : Value) (s : Store) (rows : S)
        → Step s rows
            (rollback_post_commit db f id now stamp s rows).store
            (rollback_post_commit db f id now stamp s rows).rows
    cleaned : (ttl now : ℕ) (s : Store) (rows : S) → Step s rows (cleanup ttl now s) rows
    -- Other clients write to the tables too.
    written : (s : Store) (rows rows' : S) → Step s rows s rows'

  pub data Reachable : Store → S → Type 0 where
    fresh : (rows : S) → Reachable (record { transactions = []; operations = []; next_id = 1 }) rows
    after :
        (s : Store) (rows : S) (s' : Store) (rows' : S)
        → Reachable s rows
        → Step s rows s' rows'
        → Reachable s' rows'

  Step-WellFormed :
      (s : Store) (rows : S) (s' : Store) (rows' : S)
      → Step s rows s' rows'
      → WellFormed s
      → WellFormed s'
  Step-WellFormed _ _ _ _ (started f id schema now s rows) w = start-WellFormed f id schema now s w
  Step-WellFormed _ _ _ _ (staged f id st s rows) w = stage-WellFormed f id st s w
  Step-WellFormed _ _ _ _ (committed f id now s rows) w = commit-WellFormed db f id now s rows w
  Step-WellFormed _ _ _ _ (rolled_back f id now s rows) w = rollback-WellFormed f id now s w
  Step-WellFormed _ _ _ _ (undone f id now stamp s rows) w =
      rollback_post_commit-WellFormed db f id now stamp s rows w
  Step-WellFormed _ _ _ _ (cleaned ttl now s rows) w = cleanup-WellFormed ttl now s w
  Step-WellFormed _ _ _ _ (written s rows rows') w = w

  -- In every state that calls of the manager reach from empty tables, with any calls of the
  -- database failing, the operations' numbers grow in their order and stay below the next one,
  -- each operation's transaction is there, and no two transactions have the same identifier.
  pub Reachable-WellFormed : (s : Store) (rows : S) → Reachable s rows → WellFormed s
  Reachable-WellFormed _ _ (fresh rows) = record {
    ascends = omega arith;
    owned = tt;
    distinct = tt;
  }
  Reachable-WellFormed _ _ (after s rows s' rows' r step) =
      Step-WellFormed s rows s' rows' step (Reachable-WellFormed s rows r)
