-- ===== src/Transaction/Staging/Answers.antt =====
-- Which requests the middleware answers itself, and which it hands on with nothing changed.
use rest_trans.Prelude.{ℕ, ◌+◌, ◌≡◌, true, false, List, [], ◌∷◌, Text, codes, is_empty, if_cases}
use rest_trans.Transaction.Types.{Row, Store, Target, Faults, Answer, ok, err}
use rest_trans.Transaction.Manager.{stage}
use rest_trans.Transaction.Undo.{Snapshot}
use rest_trans.Transaction.Staging.{
  Method, post, put, patch, del, other, Request, Reply, next, failed, accepted, answer_of,
  stage_inserts, staged_insert, stage_update, stage_delete, update_first, update_snapshot,
  delete_snapshot, items_of, middleware, dispatch, dispatch_by, is_unreadable, is_malformed,
  is_write, or_public,
}

-- The middleware has answered the request itself.
abbrev pub IsAnswer : Reply → Type 0
IsAnswer next = ⊥
IsAnswer (failed status code) = Unit {0}
IsAnswer (accepted id) = Unit {0}

pub record IsAnswered (x : Reply × Store) : Type 0 where
  pub answer : IsAnswer x.0

answer_of-IsAnswer :
    (code id : Text) (a : Answer (Unit {0}) × Store) → IsAnswer (answer_of code id a).0
answer_of-IsAnswer code id (err e, s) = tt
answer_of-IsAnswer code id (ok u, s) = tt

stage_inserts-IsAnswer :
    (fs : ℕ → Faults) (n : ℕ) (id table : Text) (items : List Row) (s : Store)
    → IsAnswer (stage_inserts fs n id table items s).0
unfolding stage_inserts
stage_inserts-IsAnswer fs n id table [] s = tt
stage_inserts-IsAnswer fs n id table (item ∷ items) s =
    inserted (stage (fs n) id (staged_insert table item) s).0 _
      (stage_inserts-IsAnswer fs (n + 1) id table items _)
  where
    inserted :
        (a : Answer (Unit {0})) (s' : Store)
        → IsAnswer (stage_inserts fs (n + 1) id table items s').0
        → IsAnswer
            (elim a as (λ x. Reply × Store) [
              | err e ↦ (failed 500 (codes "PGRST314"), s')
              | ok u ↦ stage_inserts fs (n + 1) id table items s'
            ]).0
    inserted (err e) s' h = tt
    inserted (ok u) s' h = h

module _ {S : Type 0} (db : Target S) (f : Faults) where
  stage_update-IsAnswer :
      (r : Request) (table : Text) (item : Row) (s : Store) (a : Answer Snapshot)
      → IsAnswer (stage_update db f r table item s a).0
  stage_update-IsAnswer r table item s (err e) = tt
  stage_update-IsAnswer r table item s (ok snapshot) = answer_of-IsAnswer _ _ _

  stage_delete-IsAnswer :
      (r : Request) (table : Text) (s : Store) (a : Answer Snapshot)
      → IsAnswer (stage_delete db f r table s a).0
  stage_delete-IsAnswer r table s (err e) = tt
  stage_delete-IsAnswer r table s (ok snapshot) = answer_of-IsAnswer _ _ _

  update_first-IsAnswer :
      (schema table : Text) (r : Request) (items : List Row) (s : Store) (rows : S)
      → IsAnswer (update_first db f schema table r items s rows).0
  update_first-IsAnswer schema table r [] s rows = tt
  update_first-IsAnswer schema table r (item ∷ items) s rows =
      stage_update-IsAnswer r table item s (update_snapshot db f schema r rows)

  dispatch_by-IsAnswer :
      (m : Method) (fs : ℕ → Faults) (schema table : Text) (r : Request) (s : Store) (rows : S)
      → is_write m ≡ true
      → IsAnswer (dispatch_by db f m fs schema table r s rows).0
  dispatch_by-IsAnswer post fs schema table r s rows h =
      stage_inserts-IsAnswer fs 0 r.header table (items_of r.body) s
  dispatch_by-IsAnswer put fs schema table r s rows h =
      update_first-IsAnswer schema table r (items_of r.body) s rows
  dispatch_by-IsAnswer patch fs schema table r s rows h =
      update_first-IsAnswer schema table r (items_of r.body) s rows
  dispatch_by-IsAnswer del fs schema table r s rows h =
      stage_delete-IsAnswer r table s (delete_snapshot db f schema r rows)
  dispatch_by-IsAnswer other fs schema table r s rows h = cc

  pub middleware-IsAnswered :
      (check : Faults) (fs : ℕ → Faults) (r : Request) (s : Store) (rows : S)
      → is_empty r.header ≡ false
      → is_write r.method ≡ true
      → IsAnswered (middleware db f check fs r s rows)
  unfolding middleware dispatch
  middleware-IsAnswered check fs r s rows h w =
      let failed = λ (status : ℕ) (code : Text).
        let reply : IsAnswered (failed status code, s) = record { answer = tt } in reply in
      rw (h, w)
        (if_cases IsAnswered check.get _ _ (failed 500 (codes "PGRST310")) (
          if_cases IsAnswered _ _ _ (failed 409 (codes "PGRST311")) (
            if_cases IsAnswered (is_unreadable r.body) _ _ (failed 400 (codes "PGRST312")) (
              if_cases IsAnswered (is_malformed r.body) _ _ (failed 400 (codes "PGRST313"))
                (record {
                  answer = dispatch_by-IsAnswer r.method fs (or_public r.schema) _ r s rows w;
                })))))

  pub middleware_plain :
      (check : Faults) (fs : ℕ → Faults) (r : Request) (s : Store) (rows : S)
      → is_empty r.header ≡ true
      → (middleware db f check fs r s rows).1 ≡ s
  unfolding middleware
  middleware_plain check fs r s rows h = rw h
