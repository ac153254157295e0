-- ===== src/Transaction/Manager/Pending.antt =====
-- What `List` of internal/transaction/manager.go gives.
use mathlib.Core.List.{Perm}
use mathlib.Core.List.Perm
use rest_trans.Prelude.{
  ◌≡◌, ◌≤◌, refl, true, List, [], ◌∷◌, Text, text_eq, ltb, arith, All, Bool-cases, inl, inr, sym,
  ap, subst, ◌∙◌,
}
use rest_trans.Prelude.Sifted.{Sifted}
use rest_trans.Prelude.Strings.Lengths.{text_eq_iff}
use rest_trans.Transaction.Types.{
  Status, pending, committed, rolled_back, Transaction, Store, Faults, Failure, Answer, ok, err,
}
use rest_trans.Transaction.Manager.{
  is_pending, pending_of, insert_newest, newest_created, list_pending,
}

-- No transaction is older than one behind it.
abbrev pub NoOlder : Transaction → List Transaction → Type 0
NoOlder t us = All (λ u. u.created_at ≤ t.created_at) us

abbrev pub NewestFirst : List Transaction → Type 0
NewestFirst [] = Unit
NewestFirst (t ∷ ts) = NoOlder t ts × NewestFirst ts

NoOlder-trans :
    (t u : Transaction) (us : List Transaction)
    → u.created_at ≤ t.created_at
    → NoOlder u us
    → NoOlder t us
NoOlder-trans t u [] h hs = tt
NoOlder-trans t u (v ∷ us) h (k, ks) = (omega arith, NoOlder-trans t u us h ks)

NoOlder-insert_newest :
    (v t : Transaction) (us : List Transaction)
    → t.created_at ≤ v.created_at
    → NoOlder v us
    → NoOlder v (insert_newest t us)
unfolding insert_newest
NoOlder-insert_newest v t [] h k = (h, tt)
NoOlder-insert_newest v t (u ∷ us) h (k, ks) = elim (Bool-cases (ltb t.created_at u.created_at)) [
  | inl e ↦ rw (e, insert_newest) (k, NoOlder-insert_newest v t us h ks)
  | inr e ↦ rw (e, insert_newest) (h, (k, ks))
]

insert_newest-NewestFirst :
    (t : Transaction) (us : List Transaction) → NewestFirst us → NewestFirst (insert_newest t us)
unfolding insert_newest
insert_newest-NewestFirst t [] h = (tt, tt)
insert_newest-NewestFirst t (u ∷ us) (h, hs) = elim (Bool-cases (ltb t.created_at u.created_at)) [
  | inl e ↦
      let le : t.created_at ≤ u.created_at = ground arith in
      rw (e, insert_newest) (NoOlder-insert_newest u t us le h, insert_newest-NewestFirst t us hs)
  | inr e ↦
      let le : u.created_at ≤ t.created_at = ground arith in
      rw (e, insert_newest) ((le, NoOlder-trans t u us le h), (h, hs))
]

newest_created-NewestFirst : (ts : List Transaction) → NewestFirst (newest_created ts)
unfolding newest_created
newest_created-NewestFirst [] = tt
newest_created-NewestFirst (t ∷ ts) =
    insert_newest-NewestFirst t (newest_created ts) (newest_created-NewestFirst ts)

insert_newest-Perm : (t : Transaction) (us : List Transaction) → Perm (insert_newest t us) (t ∷ us)
unfolding insert_newest
insert_newest-Perm t [] = Perm.refl (t ∷ [])
insert_newest-Perm t (u ∷ us) = elim (Bool-cases (ltb t.created_at u.created_at)) [
  | inl e ↦
      rw (e, insert_newest) (Perm.trans (Perm.cons u (insert_newest-Perm t us)) (Perm.swap t u us))
  | inr e ↦ rw (e, insert_newest) (Perm.refl (t ∷ u ∷ us))
]

newest_created-Perm : (ts : List Transaction) → Perm (newest_created ts) ts
unfolding newest_created
newest_created-Perm [] = Perm.refl []
newest_created-Perm (t ∷ ts) =
    Perm.trans (insert_newest-Perm t (newest_created ts)) (Perm.cons t (newest_created-Perm ts))

answer_or : List Transaction → Answer (List Transaction) → List Transaction
answer_or d (ok ts) = ts
answer_or d (err e) = d

Answer-injective : {ts us : List Transaction} → ok ts ≡ ok us → ts ≡ us
unfolding answer_or
Answer-injective {ts} p = ap (answer_or ts) p

-- The rows that the statement asks for.
abbrev pub IsAsked : Text → Transaction → Type 0
IsAsked schema t = (t.schema ≡ schema) × (t.status ≡ pending)

abbrev pub IsOther : Text → Transaction → Type 0
IsOther schema t = IsAsked schema t → ⊥

is_pending-pending : (status : Status) → is_pending status ≡ true → status ≡ pending
is_pending-pending pending h = refl
is_pending-pending committed h = cc
is_pending-pending rolled_back h = cc

pending_of-Sifted :
    (schema : Text) (ts : List Transaction)
    → Sifted (IsAsked schema) (IsOther schema) ts (pending_of schema ts)
unfolding pending_of
pending_of-Sifted schema [] = Sifted.done
pending_of-Sifted schema (t ∷ ts) =
    let rest = pending_of-Sifted schema ts in
    elim (Bool-cases (text_eq t.schema schema)) [
      | inr e ↦
          rw (e, pending_of)
            (Sifted.drop t ts (pending_of schema ts)
              (λ a. let yes = (text_eq_iff t.schema schema).1 a.0 in cc) rest)
      | inl e ↦ elim (Bool-cases (is_pending t.status)) [
        | inl k ↦
            rw (e, k, pending_of)
              (Sifted.keep t ts (pending_of schema ts)
                ((text_eq_iff t.schema schema).0 e, is_pending-pending t.status k) rest)
        | inr k ↦
            rw (e, k, pending_of)
              (Sifted.drop t ts (pending_of schema ts)
                (λ a. let yes : is_pending t.status ≡ true = rw a.1 refl in cc) rest)
      ]
    ]

-- What `List` gives of the table `ts`: the rows asked for, in another order.
pub record IsListing (schema : Text) (ts us : List Transaction) : Type 0 where
  pub rows : List Transaction
  pub asked : Sifted (IsAsked schema) (IsOther schema) ts rows
  pub reordered : Perm us rows
  pub ordered : NewestFirst us

-- Where the list of a schema's transactions is given, it holds just the transactions of that
-- schema whose status is pending, each as often as the table does, and none stands behind an older
-- one.
pub list_pending-IsListing :
    (f : Faults) (schema : Text) (s : Store) {us : List Transaction}
    → list_pending f schema s ≡ ok us
    → IsListing schema s.transactions us
unfolding list_pending
list_pending-IsListing f schema s {us} h = elim (Bool-cases f.list_transactions) [
  | inl e ↦
      let refused : list_pending f schema s ≡ err Failure.list_transactions =
        rw (e, list_pending) refl in
      cc
  | inr e ↦
      let asked = pending_of schema s.transactions in
      let is : list_pending f schema s ≡ ok (newest_created asked) = rw (e, list_pending) refl in
      subst (IsListing schema s.transactions) (Answer-injective (sym is ∙ h)) (record {
        rows = asked;
        asked = pending_of-Sifted schema s.transactions;
        reordered = newest_created-Perm asked;
        ordered = newest_created-NewestFirst asked;
      })
]
