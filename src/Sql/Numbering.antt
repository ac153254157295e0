-- ===== src/Sql/Numbering.antt =====
-- The placeholder numbers of joined and appended SQL.
use mathlib.Core.List.{append_assoc, append-nil}
use rest_trans.Prelude.{
  ℕ, zero, suc, ◌+◌, List, [], ◌∷◌, ◌++◌, ◌≡◌, refl, sym, ap, ◌∙◌, arith, Text, length,
  length-append, true,
}
use rest_trans.Sql.{txt, arg, Sql, placeholders, is_blank, join_sql, count_from}

pub placeholders-append : (a b : Sql) → placeholders (a ++ b) ≡ placeholders a ++ placeholders b
placeholders-append [] b = refl
placeholders-append (txt t ∷ ps) b = placeholders-append ps b
placeholders-append (arg n ∷ ps) b = ap (◌∷◌ n) (placeholders-append ps b)

-- The placeholders of a list of texts, one after another.
abbrev pub all_placeholders : List Sql → List ℕ
all_placeholders [] = []
all_placeholders (s ∷ ss) = placeholders s ++ all_placeholders ss

pub all_placeholders-append :
    (a b : List Sql) → all_placeholders (a ++ b) ≡ all_placeholders a ++ all_placeholders b
all_placeholders-append [] b = refl
all_placeholders-append (s ∷ ss) b = simp (all_placeholders-append ss b, append_assoc)

-- A separator with no placeholder adds none.
pub placeholders-join_sql :
    (sep : Sql) (ss : List Sql)
    → placeholders sep ≡ []
    → placeholders (join_sql sep ss) ≡ all_placeholders ss
unfolding join_sql
placeholders-join_sql sep [] h = refl
placeholders-join_sql sep (s ∷ []) h = sym (append-nil (placeholders s))
placeholders-join_sql sep (s ∷ t ∷ ts) h =
    simp (placeholders-append, h, placeholders-join_sql sep (t ∷ ts) h)

pub count_from-append :
    (first m n : ℕ) → count_from first m ++ count_from (first + m) n ≡ count_from first (m + n)
count_from-append first zero n =
    let e : first + 0 ≡ first = omega arith in let e' : 0 + n ≡ n = omega arith in rw (e, e')
count_from-append first (suc m) n =
    let e : first + suc m ≡ first + 1 + m = omega arith in
    let e' : suc m + n ≡ suc (m + n) = omega arith in
    rw (e, e') (ap (◌∷◌ first) (count_from-append (first + 1) m n))

-- The placeholders are numbered from `first`, one for each argument in its order, and `next` is
-- the first number that is free.
pub record IsNumbered (first : ℕ) (numbers : List ℕ) (args : List Text) (next : ℕ) : Type 0 where
  pub numbers_eq : numbers ≡ count_from first (length args)
  pub next_eq : next ≡ first + length args

pub IsNumbered-append :
    {first middle next : ℕ} {ns ms : List ℕ} {xs ys : List Text}
    → IsNumbered first ns xs middle
    → IsNumbered middle ms ys next
    → IsNumbered first (ns ++ ms) (xs ++ ys) next
IsNumbered-append {first} {xs} {ys} p q = record {
  numbers_eq =
      rw (p.numbers_eq, q.numbers_eq, p.next_eq, length-append xs ys)
        (count_from-append first (length xs) (length ys));
  next_eq = omega (arith, length-append xs ys, p.next_eq, q.next_eq);
}

-- Text with no character has no placeholder.
pub placeholders_blank : (s : Sql) → is_blank s ≡ true → placeholders s ≡ []
placeholders_blank [] h = refl
placeholders_blank (txt [] ∷ ps) h = placeholders_blank ps h
placeholders_blank (txt (c ∷ t) ∷ ps) h = cc
placeholders_blank (arg n ∷ ps) h = cc

count_from-nil : (first : ℕ) (xs : List Text) → count_from first (length xs) ≡ [] → xs ≡ []
count_from-nil first [] h = refl
count_from-nil first (x ∷ xs) h = cc

-- So numbered text with no character has no argument.
pub args_blank :
    {first next : ℕ} (s : Sql) {args : List Text}
    → IsNumbered first (placeholders s) args next
    → is_blank s ≡ true
    → args ≡ []
args_blank {first} s {args} h e =
    count_from-nil first args (sym h.numbers_eq ∙ placeholders_blank s e)
