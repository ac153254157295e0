-- ===== src/Transaction/Handler/Done.antt =====
-- What an answer of success says of the state behind it.
use rest_trans.Prelude.{
  ℕ, ◌≡◌, refl, sym, ap, subst, ◌∙◌, true, List, [], ◌∷◌, Text, text_eq, Option, none, some,
  Bool-cases, ◌⊎◌, inl, inr, codes,
}
use rest_trans.Transaction.Types.{
  Value, Status, pending, committed, rolled_back, Transaction, Store, Target, Faults, Answer, ok,
  err,
}
use rest_trans.Transaction.Manager.{
  find_transaction, is_found, set_status, operations_of, pending_transaction, rollback,
}
use rest_trans.Transaction.Manager.Rollback.{rollback-RollbackEnds}
use rest_trans.Transaction.Commit.{commit}
use rest_trans.Transaction.Commit.Atomic.{run_all, commit-Ends}
use rest_trans.Transaction.Undo.{committed_transaction, rollback_post_commit}
use rest_trans.Transaction.Undo.Atomic.{rollback_post_commit-BackEnds}
use rest_trans.Transaction.Invariant.Status.{status_in, status_of}
use rest_trans.Transaction.Handler.{
  error, done, Served, served, serve_commit, serve_rollback, roll_back_at, roll_back_by,
  committed_by,
}

is_found-status :
    (id : Text) (status : Status) (now : ℕ) (ts : List Transaction)
    → is_found (find_transaction id ts) ≡ true
    → status_in id (set_status id status now ts) ≡ some status
unfolding find_transaction set_status
is_found-status id status now [] h = cc
is_found-status id status now (t ∷ ts) h = elim (Bool-cases (text_eq t.id id)) [
  | inl e ↦ rw (e, e, find_transaction, set_status) refl
  | inr e ↦
      let same : find_transaction id (t ∷ ts) ≡ find_transaction id ts =
        rw (e, find_transaction) refl in
      rw (e, e, find_transaction, set_status) (is_found-status id status now ts (rw (sym same) h))
]

pending-is_found : (o : Option Transaction) → pending_transaction o ≡ true → is_found o ≡ true
pending-is_found none h = cc
pending-is_found (some t) h = refl

committed-is_found : (o : Option Transaction) → committed_transaction o ≡ true → is_found o ≡ true
committed-is_found none h = cc
committed-is_found (some t) h = refl

succeeds :
    (code : Text) (st st' : Status) (r : Answer (Unit {0}))
    → served code st r ≡ done st'
    → r ≡ ok tt
succeeds code st st' (ok u) h = refl
succeeds code st st' (err e) h = cc

module _ {S : Type 0} (db : Target S) (f : Faults) (id : Text) (now : ℕ) (s : Store)
    (rows : S) where
  -- The transaction is committed, and its operations have been applied in their order.
  pub record IsCommitted (o : Served S) : Type 0 where
    pub status : status_in id o.store.transactions ≡ some committed
    pub applied : run_all db (operations_of id s.operations) rows ≡ some o.rows

  pub commit_ok :
      (commit db f id now s rows).result ≡ ok tt
      → (status_in id (commit db f id now s rows).store.transactions ≡ some committed)
        × (run_all db (operations_of id s.operations) rows ≡ some (commit db f id now s rows).rows)
  commit_ok h = elim (commit-Ends db f id now s rows) [
    | inl e ↦ (
      ap (status_in id) e.marked
          ∙ is_found-status id committed now s.transactions
              (pending-is_found (find_transaction id s.transactions) e.was_pending),
      e.all_applied,
    )
    | inr (inl e) ↦ absurd (e.failed h)
    | inr (inr e) ↦ elim e.late [ inl p ↦ cc | inr p ↦ cc ]
  ]

  rollback_ok :
      (rollback f id now s).0 ≡ ok tt
      → status_in id (rollback f id now s).1.transactions ≡ some rolled_back
  rollback_ok h = elim (rollback-RollbackEnds f id now s) [
    | inl e ↦
        ap (status_in id) e.marked
        ∙ is_found-status id rolled_back now s.transactions
            (pending-is_found (find_transaction id s.transactions) e.was_pending)
    | inr (inl e) ↦ absurd (e.failed h)
    | inr (inr e) ↦ let p = e.late in cc
  ]

  undo_ok :
      (stamp : Value)
      → (rollback_post_commit db f id now stamp s rows).result ≡ ok tt
      → status_in id (rollback_post_commit db f id now stamp s rows).store.transactions
        ≡ some rolled_back
  undo_ok stamp h = elim (rollback_post_commit-BackEnds db f id now stamp s rows) [
    | inl e ↦
        ap (λ x. status_in id x.transactions) e.marked
        ∙ is_found-status id rolled_back now s.transactions
            (committed-is_found (find_transaction id s.transactions) e.was_committed)
    | inr (inl e) ↦ absurd (e.failed h)
    | inr (inr e) ↦ let p = e.late in cc
  ]

-- Where a commit is answered by `committed`, the transaction is committed, and the client's rows
-- are those after all of its operations, in the order in which they were staged.
pub serve_commit-IsCommitted :
    {S : Type 0} (db : Target S) (check f : Faults) (id : Text) (now : ℕ) (s : Store) (rows : S)
    → (serve_commit db check f id now s rows).response ≡ done committed
    → IsCommitted db f id now s rows (serve_commit db check f id now s rows)
unfolding serve_commit
serve_commit-IsCommitted db check f id now s rows h = elim (Bool-cases check.get) [
  | inl e ↦
      let no : (serve_commit db check f id now s rows).response ≡ error 500 (codes "PGRST304") =
        rw (e, serve_commit) refl in
      cc
  | inr e ↦ elim (Bool-cases (pending_transaction (find_transaction id s.transactions))) [
    | inr p ↦
        let no : (serve_commit db check f id now s rows).response ≡ error 409 (codes "PGRST305") =
          rw (e, p, serve_commit) refl in
        cc
    | inl p ↦
        let is : serve_commit db check f id now s rows ≡ committed_by (commit db f id now s rows) =
          rw (e, p, serve_commit) refl in
        let r = commit_ok db f id now s rows (
          succeeds (codes "PGRST306") committed committed (commit db f id now s rows).result
            (ap (λ x. x.response) (sym is) ∙ h)) in
        subst (IsCommitted db f id now s rows) (sym is) (record { status = r.0; applied = r.1 })
  ]
]

module _ {S : Type 0} (db : Target S) (f : Faults) (id : Text) (now : ℕ) (stamp : Value) (s : Store)
    (rows : S) where
  abbrev WasOpen : Option Status → Type 0
  WasOpen o = (o ≡ some pending) ⊎ (o ≡ some committed)

  roll_back_by_ok :
      (x : Status)
      → (roll_back_by db f id now stamp s rows x).response ≡ done rolled_back
      → WasOpen (some x)
        × (status_in id (roll_back_by db f id now stamp s rows x).store.transactions
            ≡ some rolled_back)
  roll_back_by_ok pending h = (
    inl refl,
    rollback_ok db f id now s rows
        (succeeds (codes "PGRST309") rolled_back rolled_back (rollback f id now s).0 h),
  )
  roll_back_by_ok committed h = (
    inr refl,
    undo_ok db f id now s rows stamp (
        succeeds (codes "PGRST320") rolled_back rolled_back
          (rollback_post_commit db f id now stamp s rows).result h),
  )
  roll_back_by_ok rolled_back h = cc

  roll_back_at_ok :
      (o : Option Transaction)
      → (roll_back_at db f id now stamp s rows o).response ≡ done rolled_back
      → WasOpen (status_of o)
        × (status_in id (roll_back_at db f id now stamp s rows o).store.transactions
            ≡ some rolled_back)
  roll_back_at_ok none h = cc
  roll_back_at_ok (some t) h = roll_back_by_ok t.status h

-- Where a rollback is answered by `rolled_back`, the transaction was pending or committed and is
-- rolled back now.
pub serve_rollback-rolled_back :
    {S : Type 0} (db : Target S) (check f : Faults) (id : Text) (now : ℕ) (stamp : Value)
    (s : Store) (rows : S)
    → (serve_rollback db check f id now stamp s rows).response ≡ done rolled_back
    → ((status_in id s.transactions ≡ some pending)
        ⊎ (status_in id s.transactions ≡ some committed))
      × (status_in id (serve_rollback db check f id now stamp s rows).store.transactions
          ≡ some rolled_back)
unfolding serve_rollback
serve_rollback-rolled_back db check f id now stamp s rows h = elim (Bool-cases check.get) [
  | inl e ↦
      let no : (serve_rollback db check f id now stamp s rows).response
          ≡ error 500 (codes "PGRST307") =
        rw (e, serve_rollback) refl in
      cc
  | inr e ↦
      let at_found = roll_back_at db f id now stamp s rows (find_transaction id s.transactions) in
      let is : serve_rollback db check f id now stamp s rows ≡ at_found =
        rw (e, serve_rollback) refl in
      let r =
        roll_back_at_ok db f id now stamp s rows (find_transaction id s.transactions)
          (ap (λ x. x.response) (sym is) ∙ h) in
      (r.0, ap (λ x. status_in id x.store.transactions) is ∙ r.1)
]
