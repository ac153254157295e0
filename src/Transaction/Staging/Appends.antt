-- ===== src/Transaction/Staging/Appends.antt =====
-- What the middleware adds to the staged operations.
use mathlib.Core.List.{append_assoc, append-nil}
use rest_trans.Prelude.{
  ℕ, ◌+◌, ◌≡◌, refl, sym, ap, ◌∙◌, true, List, [], ◌∷◌, ◌++◌, Text, Bool-cases, inl, inr, All,
  All-append, codes,
}
use rest_trans.Transaction.Types.{
  Row, Operation, Store, Target, Faults, get_transaction, not_pending, stage_operation, ok, err,
}
use rest_trans.Transaction.Manager.{
  find_transaction, pending_transaction, Staged, new_operation, stage,
}
use rest_trans.Transaction.Staging.Stages.{Answer-cases, middleware_keeps}
use rest_trans.Transaction.Staging.{
  Request, accepted, failed, stage_inserts, staged_insert, middleware,
}

-- The operations of `s` and, behind them, further ones of the transaction `id`, which is pending
-- where there is one; the transactions are the same.
pub record Extends (id : Text) (s s' : Store) : Type 0 where
  pub added : List Operation
  pub operations_eq : s'.operations ≡ s.operations ++ added
  pub transactions_eq : s'.transactions ≡ s.transactions
  pub allowed :
      All
        (λ o.
          (o.transaction_id ≡ id)
          × (pending_transaction (find_transaction id s.transactions) ≡ true))
        added

pub Extends-refl : (id : Text) (s : Store) → Extends id s s
Extends-refl id s = record {
  added = [];
  operations_eq = sym (append-nil s.operations);
  transactions_eq = refl;
  allowed = tt;
}

Extends-trans : (id : Text) (s t u : Store) → Extends id s t → Extends id t u → Extends id s u
Extends-trans id s t u p q = record {
  added = p.added ++ q.added;
  operations_eq =
      q.operations_eq
      ∙ ap (λ os. os ++ q.added) p.operations_eq
      ∙ append_assoc s.operations p.added q.added;
  transactions_eq = q.transactions_eq ∙ p.transactions_eq;
  allowed = All-append _ p.added q.added p.allowed (rw (sym p.transactions_eq) q.allowed);
}

pub stage-Extends :
    (f : Faults) (id : Text) (st : Staged) (s : Store) → Extends id s (stage f id st s).1
unfolding stage
stage-Extends f id st s = elim (Bool-cases f.get) [
  | inl e ↦ rw (e, stage) (Extends-refl id s)
  | inr e ↦ elim (Bool-cases (pending_transaction (find_transaction id s.transactions))) [
    | inr e' ↦ rw (e, e', stage) (Extends-refl id s)
    | inl e' ↦ elim (Bool-cases f.insert_row) [
      | inl e'' ↦ rw (e, e', e'', stage) (Extends-refl id s)
      | inr e'' ↦
          rw (e, e', e'', stage)
            (record {
              added = new_operation id st s.next_id ∷ [];
              operations_eq = refl;
              transactions_eq = refl;
              allowed = ((refl, e'), tt);
            })
    ]
  ]
]

-- Whatever a request holds and whatever calls fail, the middleware changes no transaction and no
-- operation that is staged already: it appends operations of the transaction that the header
-- names, and does so only where that transaction is pending.
pub middleware-Extends :
    {S : Type 0} (db : Target S) (f check : Faults) (fs : ℕ → Faults) (r : Request) (s : Store)
    (rows : S)
    → Extends r.header s (middleware db f check fs r s rows).1
middleware-Extends db f check fs r s rows =
    middleware_keeps db f (Extends r.header s) r
      (λ g st t e. Extends-trans r.header s t _ e (stage-Extends g r.header st t)) check fs s rows
      (Extends-refl r.header s)

-- The operations that a POST of these items stages, from serial number `n` on.
pub inserts_of : Text → Text → List Row → ℕ → List Operation
inserts_of id table [] n = []
inserts_of id table (item ∷ items) n =
    new_operation id (staged_insert table item) n ∷ inserts_of id table items (n + 1)

stage_ok :
    (f : Faults) (id : Text) (st : Staged) (s : Store)
    → (stage f id st s).0 ≡ ok tt
    → (stage f id st s).1 ≡ record s {
      operations = s.operations ++ new_operation id st s.next_id ∷ [];
      next_id = s.next_id + 1;
    }
unfolding stage
stage_ok f id st s h = elim (Bool-cases f.get) [
  | inl e ↦ let no : (stage f id st s).0 ≡ err get_transaction = rw (e, stage) refl in cc
  | inr e ↦ elim (Bool-cases (pending_transaction (find_transaction id s.transactions))) [
    | inr e' ↦ let no : (stage f id st s).0 ≡ err not_pending = rw (e, e', stage) refl in cc
    | inl e' ↦ elim (Bool-cases f.insert_row) [
      | inl e'' ↦
          let no : (stage f id st s).0 ≡ err stage_operation = rw (e, e', e'', stage) refl in cc
      | inr e'' ↦ rw (e, e', e'', stage) refl
    ]
  ]
]

-- A POST that is accepted has staged an insertion for each of its items, in their order, behind
-- the operations that were staged before.
pub stage_inserts-accepted :
    (fs : ℕ → Faults) (n : ℕ) (id table : Text) (items : List Row) (s : Store)
    → (stage_inserts fs n id table items s).0 ≡ accepted id
    → (stage_inserts fs n id table items s).1.operations
      ≡ s.operations ++ inserts_of id table items s.next_id
unfolding stage_inserts inserts_of
stage_inserts-accepted fs n id table [] s h = sym (append-nil s.operations)
stage_inserts-accepted fs n id table (item ∷ items) s h =
    let st = staged_insert table item in
    let r = stage (fs n) id st s in
    elim (Answer-cases r.0) [
      | inl (e, p) ↦
          let no : (stage_inserts fs n id table (item ∷ items) s).0
              ≡ failed 500 (codes "PGRST314") =
            rw (p, stage_inserts) refl in
          cc
      | inr p ↦
          let go : stage_inserts fs n id table (item ∷ items) s
              ≡ stage_inserts fs (n + 1) id table items r.1 =
            rw (p, stage_inserts) refl in
          let rest =
            stage_inserts-accepted fs (n + 1) id table items r.1 (ap (λ x. x.0) (sym go) ∙ h) in
          let e = stage_ok (fs n) id st s p in
          ap (λ x. x.1.operations) go
          ∙ rest
          ∙ ap (λ t. t.operations ++ inserts_of id table items t.next_id) e
          ∙ append_assoc s.operations _ (inserts_of id table items (s.next_id + 1))
    ]
