-- ===== src/Prelude/Errors.antt =====
-- A Go pair `(value, error)`: one of the two, with the message of each error of package query.
use mathlib.Core.Path.{◌≡◌, refl}
use mathlib.Core.Bool.{Bool, true, false}
use rest_trans.Prelude.Tests.{if◌then◌else◌}
use rest_trans.Prelude.Strings.{Text, codes}
use mathlib.Core.List.{[], ◌++◌}

-- One constructor for each `fmt.Errorf` of the package. `out_of_fuel` is the model's own.
pub data Error : Type 0 where
  column_not_found : Text → Error
  invalid_limit : Text → Error
  invalid_offset : Text → Error
  invalid_fts : Text → Error
  invalid_condition : Text → Error
  invalid_operator : Text → Error
  invalid_is_value : Text → Error
  empty_insert : Error
  empty_upsert : Error
  empty_conflict_columns : Error
  empty_update : Error
  nil_table : Error
  out_of_fuel : Error

-- The text of an error. The last two are panics of the source and have none.
unfoldable pub error_message : Error → Text
error_message (column_not_found col) = codes "column '" ++ (col ++ codes "' not found")
error_message (invalid_limit v) = codes "invalid _limit: " ++ v
error_message (invalid_offset v) = codes "invalid _offset: " ++ v
error_message (invalid_fts v) =
    codes "invalid _fts format: " ++ (v ++ codes " (expected column.search_term)")
error_message (invalid_condition c) = codes "invalid condition: " ++ c
error_message (invalid_operator op) = codes "invalid operator '" ++ (op ++ codes "'")
error_message (invalid_is_value v) =
    codes "invalid IS value: " ++ (v ++ codes " (use true, false, or null)")
error_message empty_insert = codes "empty insert"
error_message empty_upsert = codes "empty upsert"
error_message empty_conflict_columns = codes "empty conflict columns"
error_message empty_update = codes "empty update"
error_message nil_table = []
error_message out_of_fuel = []

pub data Result {ℓ} (V : Type ℓ) : Type ℓ where
  ok : V → Result V
  err : Error → Result V

module _ {ℓ κ} {V : Type ℓ} {W : Type κ} where
  infixl 5 ◌>>=◌
  -- `if err != nil { return …, err }`.
  abbrev pub ◌>>=◌ : Result V → (V → Result W) → Result W
  err e >>= k = err e
  ok v >>= k = k v

  -- Where a chain succeeds, so does its first link.
  pub >>=-eq-ok :
      (r : Result V) (k : V → Result W) {w : W}
      → (r >>= k) ≡ ok w
      → (v : V) × (r ≡ ok v) × (k v ≡ ok w)
  >>=-eq-ok (err e) k h = cc
  >>=-eq-ok (ok v) k h = (v, refl, h)

pub ok-injective {ℓ} : {A : Type ℓ} {a b : A} → ok a ≡ ok b → a ≡ b
ok-injective h = cc

-- What a result holds, where there is one.
abbrev pub Holds {ℓ} : {A : Type ℓ} → (A → Type 0) → Result A → Type 0
Holds P (ok a) = P a
Holds P (err e) = Unit

pub Holds-bind :
    {A B : Type 0} (P : A → Type 0) (Q : B → Type 0) (m : Result A) (f : A → Result B)
    → Holds P m
    → ((a : A) → P a → Holds Q (f a))
    → Holds Q (m >>= f)
Holds-bind P Q (ok a) f h k = k a h
Holds-bind P Q (err e) f h k = tt

pub Holds-eq : {A : Type 0} (P : A → Type 0) (m : Result A) {a : A} → m ≡ ok a → Holds P m → P a
Holds-eq P m e h = rw e at h

pub Holds-any : {A : Type 0} (m : Result A) → Holds (λ a. Unit) m
Holds-any (ok a) = tt
Holds-any (err e) = tt

pub >>=-same :
    {A B : Type 0} (m : Result A) (f g : A → Result B)
    → ((a : A) → f a ≡ g a)
    → (m >>= f) ≡ (m >>= g)
>>=-same (ok a) f g h = h a
>>=-same (err e) f g h = refl

pub Holds-if :
    {A : Type 0} (P : A → Type 0) (b : Bool) (m n : Result A)
    → Holds P m
    → Holds P n
    → Holds P (if b then m else n)
Holds-if P true m n h k = h
Holds-if P false m n h k = k
