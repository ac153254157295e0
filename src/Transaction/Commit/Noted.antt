-- ===== src/Transaction/Commit/Noted.antt =====
-- The notes that a commit keeps on the operations change no transaction, and no operation that is
-- staged.
use rest_trans.Prelude.{
  ℕ, ◌≡◌, refl, ap, ◌∙◌, Option, none, some, List, [], ◌∷◌, Text, ◌==◌, if_cases, Bool-cases,
  Option-cases, inl, inr,
}
use rest_trans.Transaction.Types.{Value, Row, Verb, Operation, Store, Target, Faults}
use rest_trans.Transaction.Commit.{
  set_row_ids, set_committed_state, run_op, note_row, run_ops, note_state, note_snapshots, note_all,
  current_rows,
}

-- What was staged, with its number, its transaction and its statement.
pub record Entry : Type 0 where
  pub id : ℕ
  pub transaction_id : Text
  pub operation : Verb
  pub sql_query : Text
  pub params : List Value

abbrev entry_of : Operation → Entry
entry_of o = record {
  id = o.id;
  transaction_id = o.transaction_id;
  operation = o.operation;
  sql_query = o.sql_query;
  params = o.params;
}

abbrev pub entries : List Operation → List Entry
entries [] = []
entries (o ∷ os) = entry_of o ∷ entries os

pub record IsNoted (s s' : Store) : Type 0 where
  pub transactions_eq : s'.transactions ≡ s.transactions
  pub staged_eq : entries s'.operations ≡ entries s.operations

pub IsNoted-refl : (s : Store) → IsNoted s s
IsNoted-refl s = record { transactions_eq = refl; staged_eq = refl }

pub IsNoted-trans : (s t u : Store) → IsNoted s t → IsNoted t u → IsNoted s u
IsNoted-trans s t u p q = record {
  transactions_eq = q.transactions_eq ∙ p.transactions_eq;
  staged_eq = q.staged_eq ∙ p.staged_eq;
}

entries-set_row_ids :
    (n : ℕ) (ids : List Value) (os : List Operation) → entries (set_row_ids n ids os) ≡ entries os
unfolding set_row_ids
entries-set_row_ids n ids [] = refl
entries-set_row_ids n ids (o ∷ os) = elim (Bool-cases (o.id == n)) [
  | inl e ↦ rw (e, set_row_ids) (ap (◌∷◌ (entry_of o)) (entries-set_row_ids n ids os))
  | inr e ↦ rw (e, set_row_ids) (ap (◌∷◌ (entry_of o)) (entries-set_row_ids n ids os))
]

entries-set_committed_state :
    (n : ℕ) (rows : List Row) (os : List Operation)
    → entries (set_committed_state n rows os) ≡ entries os
unfolding set_committed_state
entries-set_committed_state n rows [] = refl
entries-set_committed_state n rows (o ∷ os) = elim (Bool-cases (o.id == n)) [
  | inl e ↦
      rw (e, set_committed_state) (ap (◌∷◌ (entry_of o)) (entries-set_committed_state n rows os))
  | inr e ↦
      rw (e, set_committed_state) (ap (◌∷◌ (entry_of o)) (entries-set_committed_state n rows os))
]

module _ {S : Type 0} (db : Target S) (f : Faults) where
  note_row-IsNoted : (n : ℕ) (row : Option ℕ) (s : Store) → IsNoted s (note_row db f n row s)
  note_row-IsNoted n none s = IsNoted-refl s
  note_row-IsNoted n (some row) s =
      if_cases (IsNoted s) (f.write_row_ids n) _ _ (IsNoted-refl s)
        (record { transactions_eq = refl; staged_eq = entries-set_row_ids n _ s.operations })

  pub run_ops-IsNoted :
      (os : List Operation) (s : Store) (rows : S) → IsNoted s (run_ops db f os s rows).1
  unfolding run_ops
  run_ops-IsNoted [] s rows = IsNoted-refl s
  run_ops-IsNoted (o ∷ os) s rows = elim (Option-cases (run_op db o rows)) [
    | inl e ↦ rw (e, run_ops) (IsNoted-refl s)
    | inr ((rows', n), e) ↦
        rw (e, run_ops)
          (IsNoted-trans s (note_row db f o.id n s) _ (note_row-IsNoted o.id n s)
            (run_ops-IsNoted os (note_row db f o.id n s) rows'))
  ]

  note_state-IsNoted : (n : ℕ) (rows : List Row) (s : Store) → IsNoted s (note_state db f n rows s)
  note_state-IsNoted n [] s = IsNoted-refl s
  note_state-IsNoted n (r ∷ rs) s =
      if_cases (IsNoted s) (f.write_committed n) _ _ (IsNoted-refl s) (record {
        transactions_eq = refl;
        staged_eq = entries-set_committed_state n (r ∷ rs) s.operations;
      })

  note_snapshots-IsNoted :
      (o : Operation) (b : Option (List Row)) (s : Store) (rows : S)
      → IsNoted s (note_snapshots db f o b s rows)
  note_snapshots-IsNoted o none s rows = IsNoted-refl s
  note_snapshots-IsNoted o (some snapshots) s rows =
      note_state-IsNoted o.id (current_rows db o.table_name rows snapshots) s

  pub note_all-IsNoted :
      (os : List Operation) (s : Store) (rows : S) → IsNoted s (note_all db f os s rows)
  unfolding note_all
  note_all-IsNoted [] s rows = IsNoted-refl s
  note_all-IsNoted (o ∷ os) s rows =
      let s' = note_snapshots db f o o.before_state s rows in
      IsNoted-trans s s' _ (note_snapshots-IsNoted o o.before_state s rows)
        (note_all-IsNoted os s' rows)
