-- ===== src/Transaction/Invariant/Kept.antt =====
-- Every operation of the manager keeps its tables well formed, on its error paths too.
use rest_trans.Prelude.{
  if_cases, ℕ, ◌≡◌, refl, true, not, List, [], ◌∷◌, Text, Bool-cases, inl, inr, Option, none, some,
  Option-cases, All-append,
}
use rest_trans.Transaction.Types.{
  Value, Row, Transaction, Operation, Store, Target, Faults, Failure, get_transaction, not_pending,
  not_committed, begin_lock, lock_transaction, read_operations, begin_target, Answer, ok, err,
}
use rest_trans.Transaction.Manager.{
  find_transaction, operations_of, is_found, pending_transaction, start, Staged, stage, rollback,
  live, cleanup,
}
use rest_trans.Transaction.Commit.{
  Outcome, run_op, note_row, run_ops, note_state, note_snapshots, current_rows, note_all, mark,
  after_run, commit,
}
use rest_trans.Transaction.Undo.{
  committed_transaction, after_undo, undo_ops, newest_first, rollback_post_commit,
}
use rest_trans.Transaction.Invariant.{WellFormed, IsOwned}
use rest_trans.Transaction.Invariant.Notes.{
  Ascends-set_row_ids, IsOwned-set_row_ids, Ascends-set_committed_state,
  IsOwned-set_committed_state,
}
use rest_trans.Transaction.Invariant.Rows.{
  Ascends-snoc, Ascends-without_operations, All-without_operations, Ascends-cascade,
  IsOwned-cascade, IsOwned-set_status, distinct-set_status, distinct-live, IsOwned-append,
  distinct-snoc,
}

pending-is_found : (o : Option Transaction) → pending_transaction o ≡ true → is_found o ≡ true
pending-is_found none h = cc
pending-is_found (some t) h = refl

abbrev LeavesWellFormed : {A : Type 0} → A × Store → Type 0
LeavesWellFormed r = WellFormed r.1

pub start-WellFormed :
    (f : Faults) (id schema : Text) (now : ℕ) (s : Store)
    → WellFormed s
    → WellFormed (start f id schema now s).1
unfolding start
start-WellFormed f id schema now s w = elim (Bool-cases f.insert_row) [
  | inl e ↦ rw (e, start) w
  | inr e ↦ elim (Bool-cases (is_found (find_transaction id s.transactions))) [
    | inl e' ↦ rw (e, e', start) w
    | inr e' ↦
        rw (e, e', start)
          (record {
            ascends = w.ascends;
            owned = IsOwned-append s.transactions _ s.operations w.owned;
            distinct = distinct-snoc s.transactions _ e' w.distinct;
          })
  ]
]

pub stage-WellFormed :
    (f : Faults) (id : Text) (st : Staged) (s : Store)
    → WellFormed s
    → WellFormed (stage f id st s).1
unfolding stage
stage-WellFormed f id st s w = elim (Bool-cases f.get) [
  | inl e ↦ rw (e, stage) w
  | inr e ↦ elim (Bool-cases (pending_transaction (find_transaction id s.transactions))) [
    | inr e' ↦ rw (e, e', stage) w
    | inl e' ↦ elim (Bool-cases f.insert_row) [
      | inl e'' ↦ rw (e, e', e'', stage) w
      | inr e'' ↦
          rw (e, e', e'', stage)
            (record {
              ascends = Ascends-snoc 0 s.operations s.next_id _ refl w.ascends;
              owned =
                  All-append (IsOwned s.transactions) s.operations _ w.owned
                    (pending-is_found (find_transaction id s.transactions) e', tt);
              distinct = w.distinct;
            })
    ]
  ]
]

pub rollback-WellFormed :
    (f : Faults) (id : Text) (now : ℕ) (s : Store)
    → WellFormed s
    → WellFormed (rollback f id now s).1
unfolding rollback
rollback-WellFormed f id now s w =
    let rise = Ascends-without_operations id 0 s.operations s.next_id w.ascends in
    let owned = All-without_operations (IsOwned s.transactions) id s.operations w.owned in
    if_cases LeavesWellFormed f.get _ _ w (
      if_cases LeavesWellFormed (not (pending_transaction (find_transaction id s.transactions))) _ _
        w
        (if_cases LeavesWellFormed f.delete_operations _ _ w (
          if_cases LeavesWellFormed f.mark _ _
            (record { ascends = rise; owned = owned; distinct = w.distinct })
            (record {
              ascends = rise;
              owned = IsOwned-set_status id _ now s.transactions _ owned;
              distinct = distinct-set_status id _ now s.transactions w.distinct;
            }))))

pub cleanup-WellFormed : (ttl now : ℕ) (s : Store) → WellFormed s → WellFormed (cleanup ttl now s)
unfolding cleanup
cleanup-WellFormed ttl now s w = record {
  ascends = Ascends-cascade (live ttl now s.transactions) 0 s.operations s.next_id w.ascends;
  owned = IsOwned-cascade (live ttl now s.transactions) s.operations;
  distinct = distinct-live ttl now s.transactions w.distinct;
}

module _ {S : Type 0} (db : Target S) (f : Faults) where
  note_row-WellFormed :
      (n : ℕ) (row : Option ℕ) (s : Store) → WellFormed s → WellFormed (note_row db f n row s)
  note_row-WellFormed n none s w = w
  note_row-WellFormed n (some row) s w = if_cases WellFormed (f.write_row_ids n) _ _ w (record {
    ascends = Ascends-set_row_ids n _ 0 s.operations s.next_id w.ascends;
    owned = IsOwned-set_row_ids n _ s.transactions s.operations w.owned;
    distinct = w.distinct;
  })

  run_ops-WellFormed :
      (os : List Operation) (s : Store) (rows : S)
      → WellFormed s
      → WellFormed (run_ops db f os s rows).1
  unfolding run_ops
  run_ops-WellFormed [] s rows w = w
  run_ops-WellFormed (o ∷ os) s rows w = elim (Option-cases (run_op db o rows)) [
    | inl e ↦ rw (e, run_ops) w
    | inr ((rows', n), e) ↦
        rw (e, run_ops)
          (run_ops-WellFormed os (note_row db f o.id n s) rows' (note_row-WellFormed o.id n s w))
  ]

  note_state-WellFormed :
      (n : ℕ) (rows : List Row) (s : Store) → WellFormed s → WellFormed (note_state db f n rows s)
  note_state-WellFormed n [] s w = w
  note_state-WellFormed n (r ∷ rs) s w = if_cases WellFormed (f.write_committed n) _ _ w (record {
    ascends = Ascends-set_committed_state n _ 0 s.operations s.next_id w.ascends;
    owned = IsOwned-set_committed_state n _ s.transactions s.operations w.owned;
    distinct = w.distinct;
  })

  note_snapshots-WellFormed :
      (o : Operation) (b : Option (List Row)) (s : Store) (rows : S)
      → WellFormed s
      → WellFormed (note_snapshots db f o b s rows)
  note_snapshots-WellFormed o none s rows w = w
  note_snapshots-WellFormed o (some b) s rows w =
      note_state-WellFormed o.id (current_rows db o.table_name rows b) s w

  note_all-WellFormed :
      (os : List Operation) (s : Store) (rows : S)
      → WellFormed s
      → WellFormed (note_all db f os s rows)
  unfolding note_all
  note_all-WellFormed [] s rows w = w
  note_all-WellFormed (o ∷ os) s rows w =
      note_all-WellFormed os (note_snapshots db f o o.before_state s rows) rows
        (note_snapshots-WellFormed o o.before_state s rows w)

  record EndsWellFormed (o : Outcome S) : Type 0 where
    kept : WellFormed o.store

  ends :
      (a : Answer (Unit {0})) (s : Store) (rows : S)
      → WellFormed s
      → EndsWellFormed (record { result = a; store = s; rows = rows })
  ends a s rows w = record { kept = w }

  mark-WellFormed :
      (id : Text) (now : ℕ) (s : Store) (rows : S)
      → WellFormed s
      → EndsWellFormed (mark db f id now s rows)
  mark-WellFormed id now s rows w = if_cases EndsWellFormed f.mark _ _ (ends _ s rows w) (
      if_cases EndsWellFormed f.commit_lock _ _ (ends _ s rows w) (
        ends _ _ rows (record {
          ascends = w.ascends;
          owned = IsOwned-set_status id _ now s.transactions s.operations w.owned;
          distinct = distinct-set_status id _ now s.transactions w.distinct;
        })))

  after_run-WellFormed :
      (id : Text) (now : ℕ) (os : List Operation) (rows : S) (r : Answer S × Store)
      → WellFormed r.1
      → EndsWellFormed (after_run db f id now os rows r)
  after_run-WellFormed id now os rows (err e, s) w = ends _ s rows w
  after_run-WellFormed id now os rows (ok rows', s) w =
      if_cases EndsWellFormed f.commit_target _ _ (ends _ _ rows w)
        (mark-WellFormed id now (note_all db f os s rows') rows' (note_all-WellFormed os s rows' w))

  pub commit-WellFormed :
      (id : Text) (now : ℕ) (s : Store) (rows : S)
      → WellFormed s
      → WellFormed (commit db f id now s rows).store
  unfolding commit
  commit-WellFormed id now s rows w =
      let cut = if_cases EndsWellFormed in
      let no = λ (e : Failure). ends (err e) s rows w in
      let ops = operations_of id s.operations in
      (cut f.get _ _ (no get_transaction) (
        cut (not (pending_transaction (find_transaction id s.transactions))) _ _ (no not_pending) (
          cut f.begin_lock _ _ (no begin_lock) (
            cut f.lock _ _ (no lock_transaction) (
              cut f.read_operations _ _ (no read_operations) (
                cut f.begin_target _ _ (no begin_target) (
                  after_run-WellFormed id now ops rows (run_ops db f ops s rows)
                    (run_ops-WellFormed ops s rows w)))))))).kept

  after_undo-WellFormed :
      (id : Text) (now : ℕ) (s : Store) (rows : S) (r : Answer S)
      → WellFormed s
      → EndsWellFormed (after_undo f id now s rows r)
  after_undo-WellFormed id now s rows (err e) w = ends _ s rows w
  after_undo-WellFormed id now s rows (ok rows') w =
      if_cases EndsWellFormed f.commit_target _ _ (ends _ _ rows w) (
        if_cases EndsWellFormed f.mark _ _ (ends _ s rows' w) (
          ends _ _ rows' (record {
            ascends = w.ascends;
            owned = IsOwned-set_status id _ now s.transactions s.operations w.owned;
            distinct = distinct-set_status id _ now s.transactions w.distinct;
          })))

  pub rollback_post_commit-WellFormed :
      (id : Text) (now : ℕ) (stamp : Value) (s : Store) (rows : S)
      → WellFormed s
      → WellFormed (rollback_post_commit db f id now stamp s rows).store
  unfolding rollback_post_commit
  rollback_post_commit-WellFormed id now stamp s rows w =
      let cut = if_cases EndsWellFormed in
      let no = λ (e : Failure). ends (err e) s rows w in
      let ops = newest_first (operations_of id s.operations) in
      (cut f.get _ _ (no get_transaction) (
        cut (not (committed_transaction (find_transaction id s.transactions))) _ _
          (no not_committed)
          (cut f.read_operations _ _ (no read_operations) (
            cut f.begin_target _ _ (no begin_target)
              (after_undo-WellFormed id now s rows (undo_ops db stamp ops rows) w))))).kept
