-- ===== src/Transaction/Undo/Atomic.antt =====
-- Which of its effects a rollback after the commit has, and what arguments its statements have.
use rest_trans.Prelude.{
  ℕ, ◌+◌, ◌≡◌, ◌≢◌, ◌⊎◌, inl, inr, refl, ap, Bool, true, false, [], ◌∷◌, ◌++◌, Text, text_eq, codes,
  arith, if◌then◌else◌, Bool-cases, length, length-append,
}
use rest_trans.Sql.{placeholders, count_from}
use rest_trans.Sql.Numbering.{
  placeholders-append, all_placeholders, placeholders-join_sql, count_from-append,
}
use rest_trans.Transaction.Types.{
  Value, Row, rolled_back, Store, Target, Faults, Failure, get_transaction, not_committed,
  read_operations, begin_target, commit_target, mark_rolled_back, Answer, ok, err,
}
use rest_trans.Transaction.Manager.{find_transaction, set_status, operations_of}
use rest_trans.Transaction.Commit.{Outcome}
use rest_trans.Transaction.Undo.Reverts.{ChainBack, Undoes}
use rest_trans.Transaction.Undo.Chains.{undo_ops-ChainBack}
use rest_trans.Transaction.Undo.{
  restore_clauses, restore_args, where_index, restore_query, undo_ops, newest_first, after_undo,
  committed_transaction, rollback_post_commit,
}

module _ {S : Type 0} (db : Target S) (id : Text) (now : ℕ) (stamp : Value) (s : Store)
    (rows : S) where
  -- `rows'` are the rows after every operation has been undone, the newest first.
  abbrev pub IsUndone : S → Type 0
  IsUndone rows' = ChainBack (Undoes db stamp) (operations_of id s.operations) rows rows'

  -- It succeeds.
  pub record IsBack (o : Outcome S) : Type 0 where
    pub done : o.result ≡ ok tt
    pub was_committed : committed_transaction (find_transaction id s.transactions) ≡ true
    pub all_undone : IsUndone o.rows
    pub marked : o.store ≡ record s { transactions = set_status id rolled_back now s.transactions }

  -- It fails and has changed nothing.
  pub record IsKept (o : Outcome S) : Type 0 where
    pub failed : o.result ≢ ok tt
    pub rows_kept : o.rows ≡ rows
    pub store_kept : o.store ≡ s

  -- The rows are undone, and the note of it in the transaction fails.
  pub record IsUnmarked (o : Outcome S) : Type 0 where
    pub late : o.result ≡ err mark_rolled_back
    pub store_kept : o.store ≡ s
    pub still_committed : committed_transaction (find_transaction id o.store.transactions) ≡ true
    pub all_undone : IsUndone o.rows

  abbrev pub BackEnds : Outcome S → Type 0
  BackEnds o = IsBack o ⊎ IsKept o ⊎ IsUnmarked o

  BackEnds-if :
      (b : Bool) (x y : Outcome S) → BackEnds x → BackEnds y → BackEnds (if b then x else y)
  BackEnds-if true x y h k = h
  BackEnds-if false x y h k = k

  kept : (e : Failure) → BackEnds (record { result = err e; store = s; rows = rows })
  kept e = inr (inl (record { failed = λ p. cc; rows_kept = refl; store_kept = refl }))

module _ {S : Type 0} (db : Target S) (f : Faults) (id : Text) (now : ℕ) (stamp : Value) (s : Store)
    (rows : S)
    (was_committed : committed_transaction (find_transaction id s.transactions) ≡ true) where
  after_undo-BackEnds :
      (r : Answer S)
      → undo_ops db stamp (newest_first (operations_of id s.operations)) rows ≡ r
      → BackEnds db id now stamp s rows (after_undo f id now s rows r)
  after_undo-BackEnds (err e) h = kept db id now stamp s rows e
  after_undo-BackEnds (ok rows') h =
      let undone = undo_ops-ChainBack db stamp (operations_of id s.operations) rows rows' h in
      BackEnds-if db id now stamp s rows f.commit_target _ _
        (kept db id now stamp s rows commit_target)
        (BackEnds-if db id now stamp s rows f.mark _ _
          (inr (
            inr (record {
              late = refl;
              store_kept = refl;
              still_committed = was_committed;
              all_undone = undone;
            })))
          (inl (record {
            done = refl;
            was_committed = was_committed;
            all_undone = undone;
            marked = refl;
          })))

pub rollback_post_commit-BackEnds :
    {S : Type 0} (db : Target S) (f : Faults) (id : Text) (now : ℕ) (stamp : Value) (s : Store)
    (rows : S)
    → BackEnds db id now stamp s rows (rollback_post_commit db f id now stamp s rows)
unfolding rollback_post_commit
rollback_post_commit-BackEnds db f id now stamp s rows =
    let no = kept db id now stamp s rows in
    let cut = BackEnds-if db id now stamp s rows in
    cut f.get _ _ (no get_transaction)
      (elim (Bool-cases (committed_transaction (find_transaction id s.transactions))) [
        | inr e ↦ rw e (no not_committed)
        | inl e ↦ rw e (
            cut f.read_operations _ _ (no read_operations) (
              cut f.begin_target _ _ (no begin_target)
                (after_undo-BackEnds db f id now stamp s rows e _ refl)))
      ])

restore_clauses-count_from :
    (now : Value) (i : ℕ) (row : Row)
    → all_placeholders (restore_clauses i row) ≡ count_from i (length (restore_args now row))
unfolding restore_clauses restore_args
restore_clauses-count_from now i [] = refl
restore_clauses-count_from now i ((k, v) ∷ row) = elim (Bool-cases (text_eq k (codes "id"))) [
  | inl e ↦ rw (e, restore_clauses, restore_args) (restore_clauses-count_from now i row)
  | inr e ↦
      rw (e, restore_clauses, restore_args)
        (ap (◌∷◌ i) (restore_clauses-count_from now (i + 1) row))
]

where_index-length :
    (now : Value) (i : ℕ) (row : Row) → where_index i row ≡ i + length (restore_args now row)
unfolding where_index restore_args
where_index-length now i [] = omega arith
where_index-length now i ((k, v) ∷ row) = elim (Bool-cases (text_eq k (codes "id"))) [
  | inl e ↦ rw (e, where_index, restore_args) (where_index-length now i row)
  | inr e ↦ rw (e, where_index, restore_args) (omega (arith, where_index-length now (i + 1) row))
]

-- The statement that restores an updated row has one placeholder for each of its arguments, the
-- row's identifier being the last, and they are numbered from 1.
restore_query-count_from :
    (table : Text) (now id : Value) (row : Row)
    → placeholders (restore_query table row)
      ≡ count_from 1 (length (restore_args now row ++ id ∷ []))
unfolding restore_query
restore_query-count_from table now id row =
    simp (placeholders-append, placeholders-join_sql)
      (rw
        (
          restore_clauses-count_from now 1 row,
          where_index-length now 1 row,
          length-append (restore_args now row) (id ∷ []),
        )
        (count_from-append 1 (length (restore_args now row)) 1))
