-- ===== src/Transaction/Undo/Conflicts.antt =====
-- An update whose conflict check finds no failure is of rows that are as the commit left them.
use rest_trans.Prelude.{
  ◌≡◌, inl, inr, refl, Bool, true, false, Option, none, some, List, [], ◌∷◌, Text, text_eq, codes,
  All, arith, if◌then◌else◌,
}
use rest_trans.Prelude.Strings.Lengths.{text_eq_iff}
use rest_trans.Schema.{find}
use rest_trans.Transaction.Types.{
  Value, Row, Target, Failure, cannot_read_row, missing_column, changed_column,
}
use rest_trans.Transaction.Commit.{check_query}
use rest_trans.Transaction.Undo.{conflict_in, conflict_at, conflict, conflict_of}
use rest_trans.Transaction.Undo.Reverts.{IsAsLeft, IsUntouched, states}

module _ {S : Type 0} (db : Target S) (now : Value) where
  -- Where there is no failure, `P` holds.
  abbrev pub Clear : Type 0 → Option Failure → Type 0
  Clear P none = P
  Clear P (some e) = Unit {0}

  Clear-map : (P Q : Type 0) (o : Option Failure) → (P → Q) → Clear P o → Clear Q o
  Clear-map P Q none f h = f h
  Clear-map P Q (some e) f h = tt

  module _ (id : Value) (current : Row) (k : Text) (expected : Value) (Q : Type 0)
      (rest : Option Failure) (more : IsAsLeft db now current (k, expected) → Clear Q rest) where
    same-Clear :
        (v : Value) (b : Bool)
        → find k current ≡ some v
        → text_eq (db.print_value expected) (db.print_value v) ≡ b
        → Clear Q (if b then rest else some (changed_column id k))
    same-Clear v true f h =
        more (inr (v, f, (text_eq_iff (db.print_value expected) (db.print_value v)).0 h))
    same-Clear v false f h = tt

    found-Clear :
        (o : Option Value)
        → find k current ≡ o
        → Clear Q (elim o [
          | none ↦ some (missing_column id k)
          | some v ↦
              if text_eq (db.print_value expected) (db.print_value v)
              then rest
              else some (changed_column id k)
        ])
    found-Clear none f = tt
    found-Clear (some v) f =
        same-Clear v (text_eq (db.print_value expected) (db.print_value v)) f refl

    column-Clear :
        (b : Bool)
        → text_eq k (codes "updated_at") ≡ b
        → Clear Q (
            if b then rest else elim (find k current) [
              | none ↦ some (missing_column id k)
              | some v ↦
                  if text_eq (db.print_value expected) (db.print_value v)
                  then rest
                  else some (changed_column id k)
            ])
    column-Clear true h = more (inl ((text_eq_iff k (codes "updated_at")).0 h))
    column-Clear false h = found-Clear (find k current) refl

  conflict_in-Clear :
      (id : Value) (current row : Row)
      → Clear (All (IsAsLeft db now current) row) (conflict_in db.print_value id current row)
  unfolding conflict_in
  conflict_in-Clear id current [] = tt
  conflict_in-Clear id current ((k, expected) ∷ row) =
      let rest = conflict_in db.print_value id current row in
      let Q = All (IsAsLeft db now current) ((k, expected) ∷ row) in
      column-Clear id current k expected Q rest
        (λ left.
          Clear-map (All (IsAsLeft db now current) row) Q rest (λ h. (left, h))
            (conflict_in-Clear id current row))
        (text_eq k (codes "updated_at")) refl

  read-Clear :
      (table : Text) (row : Row) (rows : S) (id : Value) (o : Option Row)
      → find (codes "id") row ≡ some id
      → db.read_row (check_query db table) id rows ≡ o
      → Clear (IsUntouched db now table rows row) (elim o [
        | none ↦ some (cannot_read_row id)
        | some current ↦ conflict_in db.print_value id current row
      ])
  read-Clear table row rows id none h e = tt
  read-Clear table row rows id (some current) h e =
      Clear-map (All (IsAsLeft db now current) row) (IsUntouched db now table rows row)
        (conflict_in db.print_value id current row)
        (λ left key f. let same : key ≡ id = ground (arith, h, f) in (current, rw same e, left))
        (conflict_in-Clear id current row)

  conflict_at-Clear :
      (table : Text) (row : Row) (rows : S) (key : Option Value)
      → find (codes "id") row ≡ key
      → Clear (IsUntouched db now table rows row) (conflict_at db table row rows key)
  conflict_at-Clear table row rows none h = λ id e. ground (arith, h, e)
  conflict_at-Clear table row rows (some id) h =
      read-Clear table row rows id (db.read_row (check_query db table) id rows) h refl

  later-Clear :
      (P Q : Type 0) (later o : Option Failure)
      → Clear P o
      → Clear Q later
      → Clear (P × Q) (elim o [ some e ↦ some e | none ↦ later ])
  later-Clear P Q later none p q = Clear-map Q (P × Q) later (λ h. (p, h)) q
  later-Clear P Q later (some e) p q = tt

  conflict-Clear :
      (table : Text) (committed : List Row) (rows : S)
      → Clear (All (IsUntouched db now table rows) committed) (conflict db table committed rows)
  unfolding conflict
  conflict-Clear table [] rows = tt
  conflict-Clear table (row ∷ rest) rows =
      let key = find (codes "id") row in
      later-Clear (IsUntouched db now table rows row) (All (IsUntouched db now table rows) rest)
        (conflict db table rest rows) (conflict_at db table row rows key)
        (conflict_at-Clear table row rows key refl) (conflict-Clear table rest rows)

  pub conflict_of-Clear :
      (table : Text) (committed : Option (List Row)) (rows : S)
      → Clear
          (All (IsUntouched db now table rows) (states committed))
          (conflict_of db table committed rows)
  conflict_of-Clear table none rows = tt
  conflict_of-Clear table (some committed) rows = conflict-Clear table committed rows
