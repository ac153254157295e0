-- ===== src/Transaction/Invariant/Rows.antt =====
-- The statements of the manager keep the keys of the two tables.
use rest_trans.Prelude.{
  ℕ, ◌+◌, ◌≤◌, ◌≡◌, refl, sym, ◌∙◌, true, false, List, [], ◌∷◌, ◌++◌, Text, text_eq, arith,
  Bool-cases, inl, inr, All, All-append,
}
use rest_trans.Prelude.Strings.Lengths.{text_eq_iff, text_eq_refl}
use rest_trans.Transaction.Types.{Status, Transaction, Operation}
use rest_trans.Transaction.Manager.{
  find_transaction, set_status, without_operations, live, cascade, is_found, is_expired,
}
use rest_trans.Transaction.Invariant.{Ascends, IsOwned, Differs, AreDistinct}

pub Ascends-weaken :
    (low low' : ℕ) (os : List Operation) (high : ℕ)
    → low ≤ low'
    → Ascends low' os high
    → Ascends low os high
Ascends-weaken low low' [] high h a = omega arith
Ascends-weaken low low' (o ∷ os) high h (a, rise) = (omega arith, rise)

pub Ascends-snoc :
    (low : ℕ) (os : List Operation) (high : ℕ) (o : Operation)
    → o.id ≡ high
    → Ascends low os high
    → Ascends low (os ++ o ∷ []) (high + 1)
Ascends-snoc low [] high o e a = (omega arith, omega arith)
Ascends-snoc low (p ∷ os) high o e (a, rise) = (a, Ascends-snoc (p.id + 1) os high o e rise)

-- The rows that a deletion leaves.
pub Ascends-without_operations :
    (id : Text) (low : ℕ) (os : List Operation) (high : ℕ)
    → Ascends low os high
    → Ascends low (without_operations id os) high
unfolding without_operations
Ascends-without_operations id low [] high a = a
Ascends-without_operations id low (o ∷ os) high (a, rise) =
    let rest = Ascends-without_operations id (o.id + 1) os high rise in
    elim (Bool-cases (text_eq o.transaction_id id)) [
      | inl e ↦ rw (e, without_operations) (Ascends-weaken low (o.id + 1) _ high (omega arith) rest)
      | inr e ↦ rw (e, without_operations) (a, rest)
    ]

pub Ascends-cascade :
    (ts : List Transaction) (low : ℕ) (os : List Operation) (high : ℕ)
    → Ascends low os high
    → Ascends low (cascade ts os) high
unfolding cascade
Ascends-cascade ts low [] high a = a
Ascends-cascade ts low (o ∷ os) high (a, rise) =
    let rest = Ascends-cascade ts (o.id + 1) os high rise in
    elim (Bool-cases (is_found (find_transaction o.transaction_id ts))) [
      | inr e ↦ rw (e, cascade) (Ascends-weaken low (o.id + 1) _ high (omega arith) rest)
      | inl e ↦ rw (e, cascade) (a, rest)
    ]

pub IsOwned-cascade :
    (ts : List Transaction) (os : List Operation) → All (IsOwned ts) (cascade ts os)
unfolding cascade
IsOwned-cascade ts [] = tt
IsOwned-cascade ts (o ∷ os) = elim (Bool-cases (is_found (find_transaction o.transaction_id ts))) [
  | inr e ↦ rw (e, cascade) (IsOwned-cascade ts os)
  | inl e ↦ rw (e, cascade) (e, IsOwned-cascade ts os)
]

pub All-without_operations :
    (P : Operation → Type 0) (id : Text) (os : List Operation)
    → All P os
    → All P (without_operations id os)
unfolding without_operations
All-without_operations P id [] h = h
All-without_operations P id (o ∷ os) (h, hs) = elim (Bool-cases (text_eq o.transaction_id id)) [
  | inl e ↦ rw (e, without_operations) (All-without_operations P id os hs)
  | inr e ↦ rw (e, without_operations) (h, All-without_operations P id os hs)
]

-- A change of status keeps the identifiers.
is_found-set_status :
    (id : Text) (status : Status) (now : ℕ) (ts : List Transaction) (key : Text)
    → is_found (find_transaction key (set_status id status now ts))
      ≡ is_found (find_transaction key ts)
unfolding find_transaction set_status
is_found-set_status id status now [] key = refl
is_found-set_status id status now (t ∷ ts) key =
    let same = is_found-set_status id status now ts key in
    elim (Bool-cases (text_eq t.id id)) [
      | inl e ↦ rw (e, set_status) (ground (same, arith))
      | inr e ↦ rw (e, set_status) (ground (same, arith))
    ]

pub IsOwned-set_status :
    (id : Text) (status : Status) (now : ℕ) (ts : List Transaction) (os : List Operation)
    → All (IsOwned ts) os
    → All (IsOwned (set_status id status now ts)) os
IsOwned-set_status id status now ts [] h = h
IsOwned-set_status id status now ts (o ∷ os) (h, hs) = (
  is_found-set_status id status now ts o.transaction_id ∙ h,
  IsOwned-set_status id status now ts os hs,
)

Differs-set_status :
    (key id : Text) (status : Status) (now : ℕ) (ts : List Transaction)
    → All (Differs key) ts
    → All (Differs key) (set_status id status now ts)
unfolding set_status
Differs-set_status key id status now [] h = h
Differs-set_status key id status now (t ∷ ts) (h, hs) =
    let rest = Differs-set_status key id status now ts hs in
    elim (Bool-cases (text_eq t.id id)) [
      | inl e ↦ rw (e, set_status) (h, rest)
      | inr e ↦ rw (e, set_status) (h, rest)
    ]

pub distinct-set_status :
    (id : Text) (status : Status) (now : ℕ) (ts : List Transaction)
    → AreDistinct ts
    → AreDistinct (set_status id status now ts)
unfolding set_status
distinct-set_status id status now [] h = h
distinct-set_status id status now (t ∷ ts) (h, hs) =
    let far = Differs-set_status t.id id status now ts h in
    let rest = distinct-set_status id status now ts hs in
    elim (Bool-cases (text_eq t.id id)) [
      | inl e ↦ rw (e, set_status) (far, rest)
      | inr e ↦ rw (e, set_status) (far, rest)
    ]

Differs-live :
    (key : Text) (ttl now : ℕ) (ts : List Transaction)
    → All (Differs key) ts
    → All (Differs key) (live ttl now ts)
unfolding live
Differs-live key ttl now [] h = h
Differs-live key ttl now (t ∷ ts) (h, hs) = elim (Bool-cases (is_expired ttl now t)) [
  | inl e ↦ rw (e, live) (Differs-live key ttl now ts hs)
  | inr e ↦ rw (e, live) (h, Differs-live key ttl now ts hs)
]

pub distinct-live :
    (ttl now : ℕ) (ts : List Transaction) → AreDistinct ts → AreDistinct (live ttl now ts)
unfolding live
distinct-live ttl now [] h = h
distinct-live ttl now (t ∷ ts) (h, hs) = elim (Bool-cases (is_expired ttl now t)) [
  | inl e ↦ rw (e, live) (distinct-live ttl now ts hs)
  | inr e ↦ rw (e, live) (Differs-live t.id ttl now ts h, distinct-live ttl now ts hs)
]

-- A new transaction, whose identifier no other has.
is_found-append :
    (key : Text) (ts us : List Transaction)
    → is_found (find_transaction key ts) ≡ true
    → is_found (find_transaction key (ts ++ us)) ≡ true
unfolding find_transaction
is_found-append key [] us h = cc
is_found-append key (t ∷ ts) us h = elim (Bool-cases (text_eq t.id key)) [
  | inl e ↦ rw (e, find_transaction) refl
  | inr e ↦
      let same : find_transaction key (t ∷ ts) ≡ find_transaction key ts =
        rw (e, find_transaction) refl in
      rw (e, find_transaction) (is_found-append key ts us (rw (sym same) h))
]

pub IsOwned-append :
    (ts us : List Transaction) (os : List Operation)
    → All (IsOwned ts) os
    → All (IsOwned (ts ++ us)) os
IsOwned-append ts us [] h = h
IsOwned-append ts us (o ∷ os) (h, hs) =
    (is_found-append o.transaction_id ts us h, IsOwned-append ts us os hs)

text_eq_sym : (a b : Text) → text_eq a b ≡ false → text_eq b a ≡ false
text_eq_sym a b h = elim (Bool-cases (text_eq b a)) [
  | inr e ↦ e
  | inl e ↦ let p = (text_eq_iff b a).0 e in let r = text_eq_refl a in cc
]

pub distinct-snoc :
    (ts : List Transaction) (t : Transaction)
    → is_found (find_transaction t.id ts) ≡ false
    → AreDistinct ts
    → AreDistinct (ts ++ t ∷ [])
unfolding find_transaction
distinct-snoc [] t h d = (tt, tt)
distinct-snoc (u ∷ ts) t h (d, ds) = elim (Bool-cases (text_eq u.id t.id)) [
  | inl e ↦
      let no : is_found (find_transaction t.id (u ∷ ts)) ≡ true = rw (e, find_transaction) refl in
      cc
  | inr e ↦
      let same : find_transaction t.id (u ∷ ts) ≡ find_transaction t.id ts =
        rw (e, find_transaction) refl in
      (
        All-append (Differs u.id) ts (t ∷ []) d (text_eq_sym u.id t.id e, tt),
        distinct-snoc ts t (rw (sym same) h) ds,
      )
]
