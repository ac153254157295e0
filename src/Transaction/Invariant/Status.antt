-- ===== src/Transaction/Invariant/Status.antt =====
-- How the status of a transaction changes from one step to the next.
use rest_trans.Prelude.{
  ℕ, ◌≡◌, refl, sym, ap, ◌∙◌, true, false, ◌||◌, List, [], ◌∷◌, ◌++◌, Text, text_eq, Bool-cases,
  ◌⊎◌, inl, inr, Option, none, some, All, subst, arith,
}
use rest_trans.Prelude.Strings.Lengths.{text_eq_iff}
use rest_trans.Transaction.Types.{Value, Status, pending, Transaction, Store, Target, Faults}
use rest_trans.Transaction.Manager.{
  find_transaction, set_status, is_found, pending_transaction, new_transaction, is_expired, live,
  start, rollback, cleanup,
}
use rest_trans.Transaction.Commit.{commit}
use rest_trans.Transaction.Commit.Atomic.{commit-Ends}
use rest_trans.Transaction.Undo.{committed_transaction, rollback_post_commit}
use rest_trans.Transaction.Undo.Atomic.{rollback_post_commit-BackEnds}
use rest_trans.Transaction.Staging.Appends.{stage-Extends}
use rest_trans.Transaction.Invariant.{WellFormed, Differs, AreDistinct}
use rest_trans.Transaction.Invariant.Steps.{Step, started, staged, undone, cleaned, written}

abbrev pub status_of : Option Transaction → Option Status
status_of none = none
status_of (some t) = some t.status

abbrev pub status_in : Text → List Transaction → Option Status
status_in id ts = status_of (find_transaction id ts)

-- The changes of a status; `none` is that of no transaction.
pub data Moves : Option Status → Option Status → Type 0 where
  stays : (o : Option Status) → Moves o o
  starts : Moves none (some pending)
  commits : Moves (some pending) (some Status.committed)
  rolls_back : Moves (some pending) (some Status.rolled_back)
  reverts : Moves (some Status.committed) (some Status.rolled_back)
  expires_pending : Moves (some pending) none
  expires_committed : Moves (some Status.committed) none

-- A change of status is one of the row that it is made on, and of no other.
status-set_status :
    (id : Text) (status : Status) (now : ℕ) (key : Text) (ts : List Transaction)
    → (status_in key (set_status id status now ts) ≡ status_in key ts)
      ⊎ ((key ≡ id) × (status_in key (set_status id status now ts) ≡ some status))
unfolding find_transaction set_status
status-set_status id status now key [] = inl refl
status-set_status id status now key (t ∷ ts) = elim (Bool-cases (text_eq t.id key)) [
  | inl k ↦ elim (Bool-cases (text_eq t.id id)) [
    | inl e ↦
        rw (e, k, find_transaction, set_status)
          (inr (sym ((text_eq_iff t.id key).0 k) ∙ (text_eq_iff t.id id).0 e, refl))
    | inr e ↦ rw (e, k, find_transaction, set_status) (inl refl)
  ]
  | inr k ↦ elim (Bool-cases (text_eq t.id id)) [
    | inl e ↦ rw (e, k, find_transaction, set_status) (status-set_status id status now key ts)
    | inr e ↦ rw (e, k, find_transaction, set_status) (status-set_status id status now key ts)
  ]
]

pub pending-status :
    (o : Option Transaction) → pending_transaction o ≡ true → status_of o ≡ some pending
pending-status none h = cc
pending-status (some t) h = ground arith

committed-status :
    (o : Option Transaction) → committed_transaction o ≡ true → status_of o ≡ some Status.committed
committed-status none h = cc
committed-status (some t) h = ground arith

-- The change that writing a status to the row `id` makes to the row `key`.
Moves-set_status :
    (id : Text) (status : Status) (now : ℕ) (key : Text) (ts : List Transaction)
    → Moves (status_in id ts) (some status)
    → Moves (status_in key ts) (status_in key (set_status id status now ts))
Moves-set_status id status now key ts m = elim (status-set_status id status now key ts) [
  | inl e ↦ rw e (stays (status_in key ts))
  | inr (k, e) ↦ rw (e, k) m
]

Moves-same :
    (key : Text) (ts ts' : List Transaction)
    → ts' ≡ ts
    → Moves (status_in key ts) (status_in key ts')
Moves-same key ts ts' e = rw e (stays (status_in key ts))

-- A transaction that is added is pending, and hides no other.
Moves-append :
    (key : Text) (ts : List Transaction) (t : Transaction)
    → t.status ≡ pending
    → Moves (status_in key ts) (status_in key (ts ++ t ∷ []))
unfolding find_transaction
Moves-append key [] t h = elim (Bool-cases (text_eq t.id key)) [
  | inl e ↦ rw (e, h, find_transaction) starts
  | inr e ↦ rw (e, find_transaction) (stays none)
]
Moves-append key (u ∷ ts) t h = elim (Bool-cases (text_eq u.id key)) [
  | inl e ↦ rw (e, find_transaction) (stays (some u.status))
  | inr e ↦ rw (e, find_transaction) (Moves-append key ts t h)
]

-- A row that is deleted has no other of its identifier behind it.
status-absent :
    (key : Text) (ttl now : ℕ) (ts : List Transaction)
    → All (Differs key) ts
    → status_in key (live ttl now ts) ≡ none
unfolding find_transaction live
status-absent key ttl now [] h = refl
status-absent key ttl now (t ∷ ts) (h, hs) = elim (Bool-cases (is_expired ttl now t)) [
  | inl e ↦ rw (e, live) (status-absent key ttl now ts hs)
  | inr e ↦ rw (e, live, h, find_transaction) (status-absent key ttl now ts hs)
]

Status-cases : (x : Status) → (x ≡ pending) ⊎ (x ≡ Status.committed) ⊎ (x ≡ Status.rolled_back)
Status-cases pending = inl refl
Status-cases Status.committed = inr (inl refl)
Status-cases Status.rolled_back = inr (inr refl)

expired-Moves :
    (ttl now : ℕ) (t : Transaction) → is_expired ttl now t ≡ true → Moves (some t.status) none
expired-Moves ttl now t e = elim (Status-cases t.status) [
  | inl p ↦ rw p expires_pending
  | inr (inl p) ↦ rw p expires_committed
  | inr (inr p) ↦ let no : is_expired ttl now t ≡ false = rw p refl in cc
]

Moves-live :
    (key : Text) (ttl now : ℕ) (ts : List Transaction)
    → AreDistinct ts
    → Moves (status_in key ts) (status_in key (live ttl now ts))
unfolding find_transaction live
Moves-live key ttl now [] d = stays none
Moves-live key ttl now (t ∷ ts) (d, ds) = elim (Bool-cases (text_eq t.id key)) [
  | inl k ↦ elim (Bool-cases (is_expired ttl now t)) [
    | inr e ↦ rw (e, live, k, find_transaction) (stays (some t.status))
    | inl e ↦
        let gone =
          status-absent key ttl now ts
            (subst (λ x. All (Differs x) ts) ((text_eq_iff t.id key).0 k) d) in
        rw (e, live, k, find_transaction) (rw gone (expired-Moves ttl now t e))
  ]
  | inr k ↦ elim (Bool-cases (is_expired ttl now t)) [
    | inr e ↦ rw (e, live, k, find_transaction) (Moves-live key ttl now ts ds)
    | inl e ↦ rw (e, live, k, find_transaction) (Moves-live key ttl now ts ds)
  ]
]

start-Moves :
    (f : Faults) (id schema : Text) (now : ℕ) (key : Text) (s : Store)
    → Moves (status_in key s.transactions) (status_in key (start f id schema now s).1.transactions)
unfolding start
start-Moves f id schema now key s =
    elim (Bool-cases (f.insert_row || is_found (find_transaction id s.transactions))) [
      | inl e ↦ rw (e, start) (stays (status_in key s.transactions))
      | inr e ↦ rw (e, start) (Moves-append key s.transactions (new_transaction id schema now) refl)
    ]

rollback-Moves :
    (f : Faults) (id : Text) (now : ℕ) (key : Text) (s : Store)
    → Moves (status_in key s.transactions) (status_in key (rollback f id now s).1.transactions)
unfolding rollback
rollback-Moves f id now key s =
    let same = stays (status_in key s.transactions) in
    elim (Bool-cases f.get) [
      | inl e ↦ rw (e, rollback) same
      | inr e ↦ elim (Bool-cases (pending_transaction (find_transaction id s.transactions))) [
        | inr p ↦ rw (e, p, rollback) same
        | inl p ↦ elim (Bool-cases f.delete_operations) [
          | inl d ↦ rw (e, p, d, rollback) same
          | inr d ↦ elim (Bool-cases f.mark) [
            | inl m ↦ rw (e, p, d, m, rollback) same
            | inr m ↦
                rw (e, p, d, m, rollback)
                  (Moves-set_status id Status.rolled_back now key s.transactions
                    (rw (pending-status (find_transaction id s.transactions) p) rolls_back))
          ]
        ]
      ]
    ]

module _ {S : Type 0} (db : Target S) (f : Faults) (id : Text) (now : ℕ) (key : Text) (s : Store)
    (rows : S) where
  commit-Moves :
      Moves
        (status_in key s.transactions)
        (status_in key (commit db f id now s rows).store.transactions)
  commit-Moves = elim (commit-Ends db f id now s rows) [
    | inl e ↦ rw e.marked (
        Moves-set_status id Status.committed now key s.transactions
          (rw (pending-status (find_transaction id s.transactions) e.was_pending) commits))
    | inr (inl e) ↦ Moves-same key s.transactions _ e.status_kept
    | inr (inr e) ↦ Moves-same key s.transactions _ e.status_kept
  ]

  undo-Moves :
      (stamp : Value)
      → Moves
          (status_in key s.transactions)
          (status_in key (rollback_post_commit db f id now stamp s rows).store.transactions)
  undo-Moves stamp = elim (rollback_post_commit-BackEnds db f id now stamp s rows) [
    | inl e ↦ rw e.marked (
        Moves-set_status id Status.rolled_back now key s.transactions
          (rw (committed-status (find_transaction id s.transactions) e.was_committed) reverts))
    | inr (inl e) ↦ Moves-same key s.transactions _ (ap (λ x. x.transactions) e.store_kept)
    | inr (inr e) ↦ Moves-same key s.transactions _ (ap (λ x. x.transactions) e.store_kept)
  ]

-- In well-formed tables, whatever call of the manager runs and whatever fails in it, the status of
-- every transaction stays or changes in one of these ways: it appears as pending, goes from pending
-- to committed or rolled back, goes from committed to rolled back, or disappears from pending or
-- committed. In particular a transaction that is rolled back stays so.
pub Step-Moves :
    {S : Type 0} (db : Target S) (key : Text) (s : Store) (rows : S) (s' : Store) (rows' : S)
    → WellFormed s
    → Step db s rows s' rows'
    → Moves (status_in key s.transactions) (status_in key s'.transactions)
unfolding cleanup
Step-Moves db key _ _ _ _ w (started f id schema now s rows) = start-Moves f id schema now key s
Step-Moves db key _ _ _ _ w (staged f id st s rows) =
    Moves-same key s.transactions _ (stage-Extends f id st s).transactions_eq
Step-Moves db key _ _ _ _ w (Step.committed f id now s rows) = commit-Moves db f id now key s rows
Step-Moves db key _ _ _ _ w (Step.rolled_back f id now s rows) = rollback-Moves f id now key s
Step-Moves db key _ _ _ _ w (undone f id now stamp s rows) = undo-Moves db f id now key s rows stamp
Step-Moves db key _ _ _ _ w (cleaned ttl now s rows) =
    Moves-live key ttl now s.transactions w.distinct
Step-Moves db key _ _ _ _ w (written s rows rows') = stays (status_in key s.transactions)
