-- ===== src/Transaction/Invariant.antt =====
-- What holds of the tables rest_transactions and rest_transaction_operations at all times.
pub mod Rows
pub mod Notes
pub mod Kept
pub mod Steps
pub mod Status
use rest_trans.Prelude.{ℕ, ◌+◌, ◌≤◌, ◌≡◌, true, false, List, [], ◌∷◌, Text, text_eq, All}
use rest_trans.Transaction.Types.{Transaction, Operation, Store}
use rest_trans.Transaction.Manager.{find_transaction, is_found}

-- The serial numbers grow from `low` on and stay below `high`.
abbrev pub Ascends : ℕ → List Operation → ℕ → Type 0
Ascends low [] high = low ≤ high
Ascends low (o ∷ os) high = (low ≤ o.id) × Ascends (o.id + 1) os high

-- The foreign key: an operation's transaction is there.
abbrev pub IsOwned : List Transaction → Operation → Type 0
IsOwned ts o = is_found (find_transaction o.transaction_id ts) ≡ true

abbrev pub Differs : Text → Transaction → Type 0
Differs id t = text_eq t.id id ≡ false

-- The primary key: no two transactions have the same identifier.
abbrev pub AreDistinct : List Transaction → Type 0
AreDistinct [] = Unit
AreDistinct (t ∷ ts) = All (Differs t.id) ts × AreDistinct ts

pub record WellFormed (s : Store) : Type 0 where
  pub ascends : Ascends 0 s.operations s.next_id
  pub owned : All (IsOwned s.transactions) s.operations
  pub distinct : AreDistinct s.transactions
