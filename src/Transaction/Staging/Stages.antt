-- ===== src/Transaction/Staging/Stages.antt =====
-- The middleware changes the tables by calls of `Stage` for the header's transaction alone: what
-- such calls keep, it keeps.
use rest_trans.Prelude.{
  if_cases, ℕ, ◌+◌, ◌≡◌, refl, not, List, [], ◌∷◌, ◌++◌, Text, ◌⊎◌, inl, inr, codes, is_empty,
}
use rest_trans.Transaction.Types.{Row, Store, Target, Faults, Failure, Answer, ok, err}
use rest_trans.Transaction.Manager.{find_transaction, pending_transaction, Staged, stage}
use rest_trans.Transaction.Undo.{Snapshot}
use rest_trans.Transaction.Staging.{
  Request, Reply, failed, next, stage_inserts, staged_insert, answer_of, stage_update, stage_delete,
  update_first, dispatch, middleware, items_of, update_snapshot, delete_snapshot, post, put, patch,
  del, other, Method, dispatch_by, is_write, is_unreadable, is_malformed, or_public,
}

pub Answer-cases : (a : Answer (Unit {0})) → ((e : Failure) × (a ≡ err e)) ⊎ (a ≡ ok tt)
Answer-cases (err e) = inl (e, refl)
Answer-cases (ok u) = inr refl

module _ (P : Store → Type 0) where
  record Keeps (o : Reply × Store) : Type 0 where
    kept : P o.1

  kept_by : (o : Reply × Store) → P o.1 → Keeps o
  kept_by o h = record { kept = h }

module _ (P : Store → Type 0) (id : Text)
    (keeps : (f : Faults) (st : Staged) (s : Store) → P s → P (stage f id st s).1) where
  stage_inserts_keep :
      (fs : ℕ → Faults) (n : ℕ) (table : Text) (items : List Row) (s : Store)
      → P s
      → P (stage_inserts fs n id table items s).1
  unfolding stage_inserts
  stage_inserts_keep fs n table [] s h = h
  stage_inserts_keep fs n table (item ∷ items) s h =
      let r = stage (fs n) id (staged_insert table item) s in
      let first = keeps (fs n) (staged_insert table item) s h in
      elim (Answer-cases r.0) [
        | inl (e, p) ↦ rw (p, stage_inserts) first
        | inr p ↦ rw (p, stage_inserts) (stage_inserts_keep fs (n + 1) table items r.1 first)
      ]

  answer_of_keeps :
      (code : Text) (r : Answer (Unit {0}) × Store) → P r.1 → P (answer_of code id r).1
  answer_of_keeps code (err e, s') h = h
  answer_of_keeps code (ok u, s') h = h

module _ {S : Type 0} (db : Target S) (f : Faults) (P : Store → Type 0) (r : Request)
    (keeps : (f : Faults) (st : Staged) (s : Store) → P s → P (stage f r.header st s).1) where
  stage_update_keeps :
      (table : Text) (item : Row) (s : Store) (a : Answer Snapshot)
      → P s
      → P (stage_update db f r table item s a).1
  stage_update_keeps table item s (err e) h = h
  stage_update_keeps table item s (ok snapshot) h =
      answer_of_keeps P r.header keeps _ _ (keeps f _ s h)

  stage_delete_keeps :
      (table : Text) (s : Store) (a : Answer Snapshot) → P s → P (stage_delete db f r table s a).1
  stage_delete_keeps table s (err e) h = h
  stage_delete_keeps table s (ok snapshot) h = answer_of_keeps P r.header keeps _ _ (keeps f _ s h)

  update_first_keeps :
      (schema table : Text) (items : List Row) (s : Store) (rows : S)
      → P s
      → P (update_first db f schema table r items s rows).1
  update_first_keeps schema table [] s rows h = h
  update_first_keeps schema table (item ∷ items) s rows h =
      stage_update_keeps table item s (update_snapshot db f schema r rows) h

  dispatch_by_keeps :
      (m : Method) (fs : ℕ → Faults) (schema table : Text) (s : Store) (rows : S)
      → P s
      → P (dispatch_by db f m fs schema table r s rows).1
  dispatch_by_keeps post fs schema table s rows h =
      stage_inserts_keep P r.header keeps fs 0 table (items_of r.body) s h
  dispatch_by_keeps put fs schema table s rows h =
      update_first_keeps schema table (items_of r.body) s rows h
  dispatch_by_keeps patch fs schema table s rows h =
      update_first_keeps schema table (items_of r.body) s rows h
  dispatch_by_keeps del fs schema table s rows h =
      stage_delete_keeps table s (delete_snapshot db f schema r rows) h
  dispatch_by_keeps other fs schema table s rows h = h

  dispatch_keeps :
      (fs : ℕ → Faults) (schema table : Text) (s : Store) (rows : S)
      → P s
      → P (dispatch db f fs schema table r s rows).1
  unfolding dispatch
  dispatch_keeps fs schema table s rows h = dispatch_by_keeps r.method fs schema table s rows h

  pub middleware_keeps :
      (check : Faults) (fs : ℕ → Faults) (s : Store) (rows : S)
      → P s
      → P (middleware db f check fs r s rows).1
  unfolding middleware
  middleware_keeps check fs s rows h =
      let cut = if_cases (Keeps P) in
      let same = λ (reply : Reply). kept_by P (reply, s) h in
      let schema = or_public r.schema in
      let table = schema ++ (codes "." ++ r.table) in
      (cut (is_empty r.header) _ _ (same next) (
        cut (not (is_write r.method)) _ _ (same next) (
          cut check.get _ _ (same (failed 500 (codes "PGRST310"))) (
            cut (not (pending_transaction (find_transaction r.header s.transactions))) _ _
              (same (failed 409 (codes "PGRST311")))
              (cut (is_unreadable r.body) _ _ (same (failed 400 (codes "PGRST312"))) (
                cut (is_malformed r.body) _ _ (same (failed 400 (codes "PGRST313"))) (
                  kept_by P (dispatch db f fs schema table r s rows)
                    (dispatch_keeps fs schema table s rows h)))))))).kept
