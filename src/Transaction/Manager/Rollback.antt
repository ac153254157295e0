-- ===== src/Transaction/Manager/Rollback.antt =====
-- How the rollback of a pending transaction ends.
use rest_trans.Prelude.{
  ℕ, ◌≡◌, ◌≢◌, refl, true, [], Text, text_eq, if◌then◌else◌, Bool-cases, ◌⊎◌, inl, inr,
}
use rest_trans.Transaction.Types.{
  rolled_back, Store, Faults, Failure, get_transaction, not_pending, delete_operations,
  mark_rolled_back, Answer, ok, err,
}
use rest_trans.Transaction.Manager.{
  find_transaction, pending_transaction, operations_of, set_status, rollback,
}
use rest_trans.Transaction.Manager.Cleanup.{operations_of-without_operations}

-- Its operations are gone, and all others are there.
abbrev pub HasLost : Text → Store → Store → Type 0
HasLost id s s' =
    (key : Text)
    → operations_of key s'.operations
      ≡ (if text_eq id key then [] else operations_of key s.operations)

module _ (id : Text) (now : ℕ) (s : Store) where
  pub record IsRolledBack (r : Answer (Unit {0}) × Store) : Type 0 where
    pub done : r.0 ≡ ok tt
    pub was_pending : pending_transaction (find_transaction id s.transactions) ≡ true
    pub lost : HasLost id s r.1
    pub marked : r.1.transactions ≡ set_status id rolled_back now s.transactions

  pub record IsRefused (r : Answer (Unit {0}) × Store) : Type 0 where
    pub failed : r.0 ≢ ok tt
    pub kept : r.1 ≡ s

  -- The operations are gone, and the transaction is pending still.
  pub record IsEmptied (r : Answer (Unit {0}) × Store) : Type 0 where
    pub late : r.0 ≡ err mark_rolled_back
    pub lost : HasLost id s r.1
    pub status_kept : r.1.transactions ≡ s.transactions
    pub was_pending : pending_transaction (find_transaction id s.transactions) ≡ true

  abbrev pub RollbackEnds : Answer (Unit {0}) × Store → Type 0
  RollbackEnds r = IsRolledBack r ⊎ IsRefused r ⊎ IsEmptied r

  refuse : (e : Failure) → RollbackEnds (err e, s)
  refuse e = inr (inl (record { failed = λ p. cc; kept = refl }))

-- Whatever calls fail, a rollback ends in one of three ways: it succeeds, and the operations of
-- the transaction, and no others, are gone and it is marked rolled back; it fails and has changed
-- nothing; or its last statement fails, and then the operations are gone while the transaction is
-- pending still.
pub rollback-RollbackEnds :
    (f : Faults) (id : Text) (now : ℕ) (s : Store) → RollbackEnds id now s (rollback f id now s)
unfolding rollback
rollback-RollbackEnds f id now s = elim (Bool-cases f.get) [
  | inl e ↦ rw (e, rollback) (refuse id now s get_transaction)
  | inr e ↦ elim (Bool-cases (pending_transaction (find_transaction id s.transactions))) [
    | inr p ↦ rw (e, p, rollback) (refuse id now s not_pending)
    | inl p ↦ elim (Bool-cases f.delete_operations) [
      | inl d ↦ rw (e, p, d, rollback) (refuse id now s delete_operations)
      | inr d ↦
          let lost = λ (key : Text). operations_of-without_operations id key s.operations in
          elim (Bool-cases f.mark) [
            | inl m ↦
                rw (e, p, d, m, rollback)
                  (inr (
                    inr (record { late = refl; lost = lost; status_kept = refl; was_pending = p })))
            | inr m ↦
                rw (e, p, d, m, rollback)
                  (inl (record { done = refl; was_pending = p; lost = lost; marked = refl }))
          ]
    ]
  ]
]
