-- ===== src/Transaction/Invariant/Notes.antt =====
-- The notes that a commit keeps on the operations change no key.
use rest_trans.Prelude.{ℕ, ◌+◌, List, [], ◌∷◌, Bool-cases, inl, inr, All, ◌==◌}
use rest_trans.Transaction.Types.{Value, Row, Transaction, Operation}
use rest_trans.Transaction.Commit.{set_row_ids, set_committed_state}
use rest_trans.Transaction.Invariant.{Ascends, IsOwned}

-- The notes on the operations keep their keys.
pub Ascends-set_row_ids :
    (n : ℕ) (ids : List Value) (low : ℕ) (os : List Operation) (high : ℕ)
    → Ascends low os high
    → Ascends low (set_row_ids n ids os) high
unfolding set_row_ids
Ascends-set_row_ids n ids low [] high a = a
Ascends-set_row_ids n ids low (o ∷ os) high (a, rise) =
    let rest = Ascends-set_row_ids n ids (o.id + 1) os high rise in
    elim (Bool-cases (o.id == n)) [
      | inl e ↦ rw (e, set_row_ids) (a, rest)
      | inr e ↦ rw (e, set_row_ids) (a, rest)
    ]

pub IsOwned-set_row_ids :
    (n : ℕ) (ids : List Value) (ts : List Transaction) (os : List Operation)
    → All (IsOwned ts) os
    → All (IsOwned ts) (set_row_ids n ids os)
unfolding set_row_ids
IsOwned-set_row_ids n ids ts [] h = h
IsOwned-set_row_ids n ids ts (o ∷ os) (h, hs) =
    let rest = IsOwned-set_row_ids n ids ts os hs in
    elim (Bool-cases (o.id == n)) [
      | inl e ↦ rw (e, set_row_ids) (h, rest)
      | inr e ↦ rw (e, set_row_ids) (h, rest)
    ]

pub Ascends-set_committed_state :
    (n : ℕ) (rows : List Row) (low : ℕ) (os : List Operation) (high : ℕ)
    → Ascends low os high
    → Ascends low (set_committed_state n rows os) high
unfolding set_committed_state
Ascends-set_committed_state n rows low [] high a = a
Ascends-set_committed_state n rows low (o ∷ os) high (a, rise) =
    let rest = Ascends-set_committed_state n rows (o.id + 1) os high rise in
    elim (Bool-cases (o.id == n)) [
      | inl e ↦ rw (e, set_committed_state) (a, rest)
      | inr e ↦ rw (e, set_committed_state) (a, rest)
    ]

pub IsOwned-set_committed_state :
    (n : ℕ) (rows : List Row) (ts : List Transaction) (os : List Operation)
    → All (IsOwned ts) os
    → All (IsOwned ts) (set_committed_state n rows os)
unfolding set_committed_state
IsOwned-set_committed_state n rows ts [] h = h
IsOwned-set_committed_state n rows ts (o ∷ os) (h, hs) =
    let rest = IsOwned-set_committed_state n rows ts os hs in
    elim (Bool-cases (o.id == n)) [
      | inl e ↦ rw (e, set_committed_state) (h, rest)
      | inr e ↦ rw (e, set_committed_state) (h, rest)
    ]
