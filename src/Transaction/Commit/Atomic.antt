-- ===== src/Transaction/Commit/Atomic.antt =====
-- Which of its effects a commit has: all of the staged operations or none.
use rest_trans.Prelude.{
  ℕ, ◌≡◌, ◌≢◌, ◌⊎◌, inl, inr, refl, ap, Bool, true, false, Option, none, some, List, [], ◌∷◌, Text,
  arith, if◌then◌else◌, Bool-cases, Option-cases,
}
use rest_trans.Transaction.Types.{
  committed, Operation, Store, Target, Faults, Failure, get_transaction, not_pending, begin_lock,
  lock_transaction, read_operations, begin_target, execute_op, commit_target, mark_committed,
  commit_lock, Answer, ok, err,
}
use rest_trans.Transaction.Manager.{
  find_transaction, set_status, operations_of, pending_transaction,
}
use rest_trans.Transaction.Commit.Noted.{
  entries, IsNoted, IsNoted-refl, IsNoted-trans, run_ops-IsNoted, note_all-IsNoted,
}
use rest_trans.Transaction.Commit.{
  Outcome, run_op, note_row, run_ops, note_all, mark, after_run, commit,
}

module _ {S : Type 0} (db : Target S) where
  -- What staged operations do to the client's tables, one after another and with no notes kept.
  pub run_all : List Operation → S → Option S
  run_all [] rows = some rows
  run_all (o ∷ os) rows = elim (run_op db o rows) [
    | none ↦ none
    | some (rows', n) ↦ run_all os rows'
  ]

-- What the result of the loop says of the rows.
abbrev Runs : {S : Type 0} → Answer S → Option S → Type 0
Runs (ok rows) o = o ≡ some rows
Runs (err e) o = (o ≡ none) × ((n : ℕ) × (e ≡ execute_op n))

module _ {S : Type 0} (db : Target S) (f : Faults) where
  run_ops-Runs :
      (os : List Operation) (s : Store) (rows : S)
      → Runs (run_ops db f os s rows).0 (run_all db os rows)
  unfolding run_ops run_all
  run_ops-Runs [] s rows = refl
  run_ops-Runs (o ∷ os) s rows = elim (Option-cases (run_op db o rows)) [
    | inl e ↦ rw (e, run_ops, run_all) (refl, (o.id, refl))
    | inr ((rows', n), e) ↦
        rw (e, run_ops, run_all) (run_ops-Runs os (note_row db f o.id n s) rows')
  ]

-- The three ends of a commit of the transaction `id` at time `now` in the state `s` and `rows`.
module _ {S : Type 0} (db : Target S) (id : Text) (now : ℕ) (s : Store) (rows : S) where
  -- It succeeds: the rows are those after all staged operations, and the transaction is committed.
  pub record IsDone (o : Outcome S) : Type 0 where
    pub done : o.result ≡ ok tt
    pub was_pending : pending_transaction (find_transaction id s.transactions) ≡ true
    pub all_applied : run_all db (operations_of id s.operations) rows ≡ some o.rows
    pub marked : o.store.transactions ≡ set_status id committed now s.transactions

  -- It fails: no row and no transaction is changed, and what is staged stays.
  pub record IsUndone (o : Outcome S) : Type 0 where
    pub failed : o.result ≢ ok tt
    pub rows_kept : o.rows ≡ rows
    pub status_kept : o.store.transactions ≡ s.transactions
    pub staged_kept : entries o.store.operations ≡ entries s.operations

  -- It fails after the client's rows are written: all operations are applied, and the transaction
  -- is pending still.
  pub record IsHalfDone (o : Outcome S) : Type 0 where
    pub late : (o.result ≡ err mark_committed) ⊎ (o.result ≡ err commit_lock)
    pub status_kept : o.store.transactions ≡ s.transactions
    pub staged_kept : entries o.store.operations ≡ entries s.operations
    pub still_pending : pending_transaction (find_transaction id o.store.transactions) ≡ true
    pub all_applied : run_all db (operations_of id s.operations) rows ≡ some o.rows

  abbrev pub Ends : Outcome S → Type 0
  Ends o = IsDone o ⊎ IsUndone o ⊎ IsHalfDone o

  Ends-if : (b : Bool) (x y : Outcome S) → Ends x → Ends y → Ends (if b then x else y)
  Ends-if true x y h k = h
  Ends-if false x y h k = k

  undone :
      (e : Failure) (s' : Store)
      → IsNoted s s'
      → Ends (record { result = err e; store = s'; rows = rows })
  undone e s' h = inr (
      inl (record {
        failed = λ p. cc;
        rows_kept = refl;
        status_kept = h.transactions_eq;
        staged_kept = h.staged_eq;
      }))

module _ {S : Type 0} (db : Target S) (f : Faults) (id : Text) (now : ℕ) (s : Store) (rows : S)
    (was_pending : pending_transaction (find_transaction id s.transactions) ≡ true) where
  half_done :
      (s' : Store) (rows' : S) (e : Failure)
      → (e ≡ mark_committed) ⊎ (e ≡ commit_lock)
      → IsNoted s s'
      → run_all db (operations_of id s.operations) rows ≡ some rows'
      → Ends db id now s rows (record { result = err e; store = s'; rows = rows' })
  half_done s' rows' e late same all = inr (
      inr (record {
        late = ground arith;
        status_kept = same.transactions_eq;
        staged_kept = same.staged_eq;
        still_pending = rw same.transactions_eq was_pending;
        all_applied = all;
      }))

  mark-Ends :
      (s' : Store) (rows' : S)
      → IsNoted s s'
      → run_all db (operations_of id s.operations) rows ≡ some rows'
      → Ends db id now s rows (mark db f id now s' rows')
  mark-Ends s' rows' same all =
      Ends-if db id now s rows f.mark _ _ (half_done s' rows' mark_committed (inl refl) same all) (
        Ends-if db id now s rows f.commit_lock _ _
          (half_done s' rows' commit_lock (inr refl) same all)
          (inl (record {
            done = refl;
            was_pending = was_pending;
            all_applied = all;
            marked = ap (set_status id committed now) same.transactions_eq;
          })))

  after_run-Ends :
      (r : Answer S × Store)
      → IsNoted s r.1
      → Runs r.0 (run_all db (operations_of id s.operations) rows)
      → Ends db id now s rows (after_run db f id now (operations_of id s.operations) rows r)
  after_run-Ends (err e, s') same ran = undone db id now s rows e s' same
  after_run-Ends (ok rows', s') same ran =
      Ends-if db id now s rows f.commit_target _ _ (undone db id now s rows commit_target s' same) (
        mark-Ends (note_all db f (operations_of id s.operations) s' rows') rows'
          (IsNoted-trans s s' _ same
            (note_all-IsNoted db f (operations_of id s.operations) s' rows'))
          ran)

-- Whatever calls of the database fail, a commit ends in one of three ways: it succeeds with every
-- staged operation applied, in order, to the client's rows and the transaction marked committed;
-- it fails and has changed no row and no status; or one of the last two calls fails, and then all
-- operations are applied and the transaction is left pending, to be committed once more. Where it
-- fails, no staged operation is deleted.
pub commit-Ends :
    {S : Type 0} (db : Target S) (f : Faults) (id : Text) (now : ℕ) (s : Store) (rows : S)
    → Ends db id now s rows (commit db f id now s rows)
unfolding commit
commit-Ends db f id now s rows =
    let no = λ (e : Failure). undone db id now s rows e s (IsNoted-refl s) in
    let ops = operations_of id s.operations in
    let p = pending_transaction (find_transaction id s.transactions) in
    Ends-if db id now s rows f.get _ _ (no get_transaction) (elim (Bool-cases p) [
      | inr e ↦ rw e (no not_pending)
      | inl e ↦ rw e (
          Ends-if db id now s rows f.begin_lock _ _ (no begin_lock) (
            Ends-if db id now s rows f.lock _ _ (no lock_transaction) (
              Ends-if db id now s rows f.read_operations _ _ (no read_operations) (
                Ends-if db id now s rows f.begin_target _ _ (no begin_target) (
                  after_run-Ends db f id now s rows e (run_ops db f ops s rows)
                    (run_ops-IsNoted db f ops s rows) (run_ops-Runs db f ops s rows))))))
    ])
