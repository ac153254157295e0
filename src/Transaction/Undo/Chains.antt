-- ===== src/Transaction/Undo/Chains.antt =====
-- The way back over staged operations undoes each of them, the newest first.
use rest_trans.Prelude.{
  ◌≡◌, inl, inr, refl, Option, none, some, List, [], ◌∷◌, ◌++◌, Text, codes, All, arith,
  Option-cases, subst,
}
use rest_trans.Sql.{render}
use rest_trans.Schema.{find}
use rest_trans.Transaction.Types.{
  Value, Row, Verb, insert, update, delete, Operation, Target, Failure, Answer, ok, err,
}
use rest_trans.Transaction.Statements.{
  columns_of, values_of, placeholders_from, build_insert_query, build_delete_query,
}
use rest_trans.Transaction.Undo.{
  conflict_of, delete_rows, restore_row, restore_rows, reinsert_rows, undo_insert, undo_update,
  undo_plain, undo_snapshots, undo_op, undo_ops, newest_first,
}
use rest_trans.Transaction.Undo.Reverts.{
  Chain, ChainBack, Deletes, Restores, Reinserts, IsUntouched, states, Undoes, inserted, updated,
  deleted, no_snapshot, no_insertion,
}
use rest_trans.Transaction.Undo.Conflicts.{Clear, conflict_of-Clear}

module _ {S : Type 0} (db : Target S) (now : Value) where
  -- Where the answer gives rows, `P` holds of them.
  abbrev Gives : (S → Type 0) → Answer S → Type 0
  Gives P (ok rows) = P rows
  Gives P (err e) = Unit {0}

  Gives-map : (P Q : S → Type 0) (a : Answer S) → ((r : S) → P r → Q r) → Gives P a → Gives Q a
  Gives-map P Q (ok rows) f h = f rows h
  Gives-map P Q (err e) f h = tt

  delete_rows-Chain :
      (table : Text) (ids : List Value) (rows : S)
      → Gives (Chain (Deletes db now table) ids rows) (delete_rows db table ids rows)
  unfolding delete_rows
  delete_rows-Chain table [] rows = refl
  delete_rows-Chain table (id ∷ ids) rows =
      elim (Option-cases (db.exec (render (build_delete_query table)) (id ∷ []) rows)) [
        | inl e ↦ rw (e, delete_rows) tt
        | inr (t, e) ↦
            rw (e, delete_rows)
              (Gives-map (Chain (Deletes db now table) ids t)
                (Chain (Deletes db now table) (id ∷ ids) rows) (delete_rows db table ids t)
                (λ r h. (t, e, h)) (delete_rows-Chain table ids t))
      ]

  restore_row-Restores :
      (table : Text) (row : Row) (rows t : S) (id : Option Value)
      → find (codes "id") row ≡ id
      → restore_row db now table row id rows ≡ some t
      → Restores db now table row rows t
  restore_row-Restores table row rows t none h e = inl (h, ground (arith, e))
  restore_row-Restores table row rows t (some id) h e = inr (id, h, e)

  restore_rows-Chain :
      (table : Text) (snapshots : List Row) (rows : S)
      → Gives
          (Chain (Restores db now table) snapshots rows)
          (restore_rows db now table snapshots rows)
  unfolding restore_rows
  restore_rows-Chain table [] rows = refl
  restore_rows-Chain table (row ∷ rest) rows =
      elim (Option-cases (restore_row db now table row (find (codes "id") row) rows)) [
        | inl e ↦ rw (e, restore_rows) tt
        | inr (t, e) ↦
            rw (e, restore_rows)
              (Gives-map (Chain (Restores db now table) rest t)
                (Chain (Restores db now table) (row ∷ rest) rows) (restore_rows db now table rest t)
                (λ r h. (t, restore_row-Restores table row rows t _ refl e, h))
                (restore_rows-Chain table rest t))
      ]

  reinsert_rows-Chain :
      (table : Text) (snapshots : List Row) (rows : S)
      → Gives
          (Chain (Reinserts db now table) snapshots rows)
          (reinsert_rows db table snapshots rows)
  unfolding reinsert_rows
  reinsert_rows-Chain table [] rows = refl
  reinsert_rows-Chain table (row ∷ rest) rows =
      let query = build_insert_query table (columns_of row) (placeholders_from 1 row) in
      elim (Option-cases (db.exec (render query) (values_of row) rows)) [
        | inl e ↦ rw (e, reinsert_rows) tt
        | inr (t, e) ↦
            rw (e, reinsert_rows)
              (Gives-map (Chain (Reinserts db now table) rest t)
                (Chain (Reinserts db now table) (row ∷ rest) rows) (reinsert_rows db table rest t)
                (λ r h. (t, e, h)) (reinsert_rows-Chain table rest t))
      ]

  undo_update-Undoes :
      (o : Operation) (snapshots : List Row) (rows : S) (c : Option Failure)
      → o.operation ≡ update
      → o.before_state ≡ some snapshots
      → Clear db now (All (IsUntouched db now o.table_name rows) (states o.committed_state)) c
      → Gives (Undoes db now o rows) (undo_update db now o snapshots c rows)
  undo_update-Undoes o snapshots rows (some e) h b k = tt
  undo_update-Undoes o snapshots rows none h b k =
      Gives-map (Chain (Restores db now o.table_name) snapshots rows) (Undoes db now o rows)
        (restore_rows db now o.table_name snapshots rows) (λ r c. updated snapshots h b k c)
        (restore_rows-Chain o.table_name snapshots rows)

  undo_insert-Undoes :
      (o : Operation) (ids : Option (List Value)) (rows : S)
      → o.operation ≡ insert
      → o.before_state ≡ none
      → o.row_ids ≡ ids
      → Gives (Undoes db now o rows) (undo_insert db o ids rows)
  undo_insert-Undoes o none rows h b i = tt
  undo_insert-Undoes o (some ids) rows h b i =
      Gives-map (Chain (Deletes db now o.table_name) ids rows) (Undoes db now o rows)
        (delete_rows db o.table_name ids rows) (λ r c. inserted ids h b i c)
        (delete_rows-Chain o.table_name ids rows)

  plain-Undoes :
      (o : Operation) (rows : S) (v : Verb)
      → o.operation ≡ v
      → o.before_state ≡ none
      → Gives
          (Undoes db now o rows)
          (elim v [ insert ↦ undo_insert db o o.row_ids rows | _ ↦ ok rows ])
  plain-Undoes o rows insert h b = undo_insert-Undoes o o.row_ids rows h b refl
  plain-Undoes o rows update h b = no_snapshot (λ i. ground (arith, h, i)) b refl
  plain-Undoes o rows delete h b = no_snapshot (λ i. ground (arith, h, i)) b refl

  snapshots-Undoes :
      (o : Operation) (snapshots : List Row) (rows : S) (v : Verb)
      → o.operation ≡ v
      → o.before_state ≡ some snapshots
      → Gives (Undoes db now o rows) (elim v [
        | insert ↦ ok rows
        | update ↦
            undo_update db now o snapshots (conflict_of db o.table_name o.committed_state rows) rows
        | delete ↦ reinsert_rows db o.table_name snapshots rows
      ])
  snapshots-Undoes o snapshots rows insert h b = no_insertion snapshots h b refl
  snapshots-Undoes o snapshots rows update h b =
      undo_update-Undoes o snapshots rows (conflict_of db o.table_name o.committed_state rows) h b
        (conflict_of-Clear db now o.table_name o.committed_state rows)
  snapshots-Undoes o snapshots rows delete h b =
      Gives-map (Chain (Reinserts db now o.table_name) snapshots rows) (Undoes db now o rows)
        (reinsert_rows db o.table_name snapshots rows) (λ r c. deleted snapshots h b c)
        (reinsert_rows-Chain o.table_name snapshots rows)

  before-Undoes :
      (o : Operation) (rows : S) (before : Option (List Row))
      → o.before_state ≡ before
      → Gives (Undoes db now o rows) (elim before [
        | none ↦ undo_plain db o rows
        | some snapshots ↦ undo_snapshots db now o snapshots rows
      ])
  before-Undoes o rows none b = plain-Undoes o rows o.operation refl b
  before-Undoes o rows (some snapshots) b = snapshots-Undoes o snapshots rows o.operation refl b

  undo_op-Undoes : (o : Operation) (rows : S) → Gives (Undoes db now o rows) (undo_op db now o rows)
  unfolding undo_op
  undo_op-Undoes o rows = before-Undoes o rows o.before_state refl

  next-Chain :
      (o : Operation) (os : List Operation) (rows : S) (a : Answer S)
      → Gives (Undoes db now o rows) a
      → ((t : S) → Gives (Chain (Undoes db now) os t) (undo_ops db now os t))
      → Gives
          (Chain (Undoes db now) (o ∷ os) rows)
          (elim a [ err e ↦ err e | ok rows' ↦ undo_ops db now os rows' ])
  next-Chain o os rows (err e) h rest = tt
  next-Chain o os rows (ok t) h rest =
      Gives-map (Chain (Undoes db now) os t) (Chain (Undoes db now) (o ∷ os) rows)
        (undo_ops db now os t) (λ r c. (t, h, c)) (rest t)

  undo_ops-Chain :
      (os : List Operation) (rows : S)
      → Gives (Chain (Undoes db now) os rows) (undo_ops db now os rows)
  unfolding undo_ops
  undo_ops-Chain [] rows = refl
  undo_ops-Chain (o ∷ os) rows =
      next-Chain o os rows (undo_op db now o rows) (undo_op-Undoes o rows)
        (λ t. undo_ops-Chain os t)

  Chain-last :
      (os : List Operation) (o : Operation) (rows rows' : S)
      → Chain (Undoes db now) (os ++ o ∷ []) rows rows'
      → (t : S) × Chain (Undoes db now) os rows t × Undoes db now o t rows'
  Chain-last [] o rows rows' (t, h, e) = (rows, refl, subst (Undoes db now o rows) e h)
  Chain-last (p ∷ os) o rows rows' (t, h, c) =
      let (u, c', h') = Chain-last os o t rows' c in (u, (t, h, c'), h')

  newest_first-ChainBack :
      (os : List Operation) (rows rows' : S)
      → Chain (Undoes db now) (newest_first os) rows rows'
      → ChainBack (Undoes db now) os rows rows'
  unfolding newest_first
  newest_first-ChainBack [] rows rows' c = c
  newest_first-ChainBack (o ∷ os) rows rows' c =
      let (t, c', h) = Chain-last (newest_first os) o rows rows' c in
      (t, newest_first-ChainBack os rows t c', h)

  -- Where the loop gives rows, all operations are undone, the last of the list first.
  pub undo_ops-ChainBack :
      (os : List Operation) (rows rows' : S)
      → undo_ops db now (newest_first os) rows ≡ ok rows'
      → ChainBack (Undoes db now) os rows rows'
  undo_ops-ChainBack os rows rows' h = newest_first-ChainBack os rows rows' (
      subst (Gives (Chain (Undoes db now) (newest_first os) rows)) h
        (undo_ops-Chain (newest_first os) rows))
