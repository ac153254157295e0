-- ===== src/Transaction/Manager/Cleanup.antt =====
-- What deletions of operations leave to each transaction.
use rest_trans.Prelude.{
  ℕ, ◌+◌, ◌<◌, ◌≡◌, ◌⊎◌, refl, sym, ap, true, false, List, [], ◌∷◌, Text, text_eq, ltb, ltb→lt,
  arith, if◌then◌else◌, Bool-cases, inl, inr,
}
use rest_trans.Prelude.Sifted.{Sifted}
use rest_trans.Prelude.Strings.Lengths.{text_eq_iff}
use rest_trans.Transaction.Types.{
  Status, pending, committed, rolled_back, Transaction, Operation, Store,
}
use rest_trans.Transaction.Manager.{
  find_transaction, is_found, operations_of, without_operations, is_expired, live, cascade, cleanup,
}

-- The rows with some key are not touched where another's are deleted.
pub operations_of-without_operations :
    (id key : Text) (os : List Operation)
    → operations_of key (without_operations id os)
      ≡ (if text_eq id key then [] else operations_of key os)
unfolding operations_of without_operations
operations_of-without_operations id key [] = ground arith
operations_of-without_operations id key (o ∷ os) =
    let rest = operations_of-without_operations id key os in
    elim (Bool-cases (text_eq o.transaction_id id)) [
      | inl e ↦
          let same = (text_eq_iff o.transaction_id id).0 e in
          elim (Bool-cases (text_eq id key)) [
            | inl k ↦ rw (e, without_operations, k) (rw k at rest)
            | inr k ↦
                let k' : text_eq o.transaction_id key ≡ false = rw same k in
                rw (e, without_operations, k, k', operations_of) (rw k at rest)
          ]
      | inr e ↦ elim (Bool-cases (text_eq id key)) [
        | inl k ↦
            let k' : text_eq o.transaction_id key ≡ false = rw (sym ((text_eq_iff id key).0 k)) e in
            rw (e, without_operations, k, k', operations_of) (rw k at rest)
        | inr k ↦
            rw (e, without_operations, k, operations_of)
              (ap (λ r. if text_eq o.transaction_id key then o ∷ r else r) (rw k at rest))
      ]
    ]

operations_of-cascade :
    (ts : List Transaction) (key : Text) (os : List Operation)
    → operations_of key (cascade ts os)
      ≡ (if is_found (find_transaction key ts) then operations_of key os else [])
unfolding operations_of cascade
operations_of-cascade ts key [] = ground arith
operations_of-cascade ts key (o ∷ os) =
    let rest = operations_of-cascade ts key os in
    elim (Bool-cases (text_eq o.transaction_id key)) [
      | inl e ↦
          let same = (text_eq_iff o.transaction_id key).0 e in
          elim (Bool-cases (is_found (find_transaction key ts))) [
            | inl k ↦
                let k' : is_found (find_transaction o.transaction_id ts) ≡ true = rw same k in
                rw (k', cascade, k, e, operations_of) (ap (◌∷◌ o) (rw k at rest))
            | inr k ↦
                let k' : is_found (find_transaction o.transaction_id ts) ≡ false = rw same k in
                rw (k', cascade, k) (rw k at rest)
          ]
      | inr e ↦ elim (Bool-cases (is_found (find_transaction o.transaction_id ts))) [
        | inl k ↦ rw (k, cascade, e, operations_of) rest
        | inr k ↦ rw (k, cascade, e, operations_of) rest
      ]
    ]

-- Older than `ttl`: a pending transaction since it was begun, a committed one since its commit.
abbrev pub IsOutdated : ℕ → ℕ → Transaction → Type 0
IsOutdated ttl now t =
    ((t.status ≡ pending) × (t.created_at + ttl < now))
    ⊎ ((t.status ≡ committed) × (t.updated_at + ttl < now))

abbrev pub IsKept : ℕ → ℕ → Transaction → Type 0
IsKept ttl now t = IsOutdated ttl now t → ⊥

is_expired-IsOutdated :
    (ttl now : ℕ) (status : Status) (t : Transaction)
    → t.status ≡ status
    → is_expired ttl now (record t { status = status }) ≡ true
    → IsOutdated ttl now t
is_expired-IsOutdated ttl now pending t s h = inl (s, ltb→lt (t.created_at + ttl) now h)
is_expired-IsOutdated ttl now committed t s h = inr (s, ltb→lt (t.updated_at + ttl) now h)
is_expired-IsOutdated ttl now rolled_back t s h = cc

lt→ltb : (a b : ℕ) → a < b → ltb a b ≡ true
lt→ltb a b h = ground arith

IsOutdated-is_expired :
    (ttl now : ℕ) (t : Transaction) → IsOutdated ttl now t → is_expired ttl now t ≡ true
IsOutdated-is_expired ttl now t (inl (s, h)) = rw s (lt→ltb (t.created_at + ttl) now h)
IsOutdated-is_expired ttl now t (inr (s, h)) = rw s (lt→ltb (t.updated_at + ttl) now h)

live-Sifted :
    (ttl now : ℕ) (ts : List Transaction)
    → Sifted (IsKept ttl now) (IsOutdated ttl now) ts (live ttl now ts)
unfolding live
live-Sifted ttl now [] = Sifted.done
live-Sifted ttl now (t ∷ ts) = elim (Bool-cases (is_expired ttl now t)) [
  | inl e ↦
      rw (e, live)
        (Sifted.drop t ts (live ttl now ts) (is_expired-IsOutdated ttl now t.status t refl e)
          (live-Sifted ttl now ts))
  | inr e ↦
      rw (e, live)
        (Sifted.keep t ts (live ttl now ts) (λ h. let yes = IsOutdated-is_expired ttl now t h in cc)
          (live-Sifted ttl now ts))
]

pub record IsCleaned (ttl now : ℕ) (s s' : Store) : Type 0 where
  pub transactions_left :
      Sifted (IsKept ttl now) (IsOutdated ttl now) s.transactions s'.transactions
  pub operations_left :
      (key : Text)
      → operations_of key s'.operations ≡ (
          if is_found (find_transaction key s'.transactions)
          then operations_of key s.operations
          else [])
  pub serial_kept : s'.next_id ≡ s.next_id

-- A cleanup deletes the transactions that are pending and were begun more than `ttl` ago, or are
-- committed and were so more than `ttl` ago, and no others: those that are left are as they were,
-- in their order. Each of them keeps all of its operations, in their order, and those of a
-- transaction that is deleted are gone.
pub cleanup-IsCleaned : (ttl now : ℕ) (s : Store) → IsCleaned ttl now s (cleanup ttl now s)
unfolding cleanup
cleanup-IsCleaned ttl now s = record {
  transactions_left = live-Sifted ttl now s.transactions;
  operations_left = λ key. operations_of-cascade (live ttl now s.transactions) key s.operations;
  serial_kept = refl;
}
