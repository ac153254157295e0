-- ===== src/Query/Logical/Fuel.antt =====
-- The fuel of `parseLogicalFilter` is enough: every call is on a shorter text.
use rest_trans.Prelude.{
  ℕ, zero, suc, ◌+◌, ◌≤◌, ◌<◌, List, [], ◌∷◌, ◌≡◌, ◌≢◌, refl, ap, ◌∙◌, Bool, true, false, Option,
  none, some, inl, inr, Bool-cases, Option-cases, arith, Text, codes, length, length-drop, All,
  All-map, has_prefix, index_byte, split_n, trim, trim_space, is_empty, drop, take, if◌then◌else◌,
  Result, ok, err, out_of_fuel, ◌>>=◌, >>=-same,
}
use rest_trans.Prelude.Strings.Lengths.{trim-length, trim_space-length}
use rest_trans.Query.Params.{FilterOp, LogicalFilter, group, nil, negated}
use rest_trans.Query.Scan.{split_logical_conditions}
use rest_trans.Query.Scan.Join.{split-length}
use rest_trans.Query.Filters.{Columns, known_operator, condition_of, parse_condition}
use rest_trans.Query.Operator.{Operator, valid_operator}
use rest_trans.Query.Logical.{
  Nested, nested_of, nested_parts, nested_group, group_op, add_group, SubParser, add_part,
  logical_part, logical_parts, parse_logical, parse_logical_filter,
}

nested_of-length :
    (o : Option FilterOp) (inner : Text) (n : Nested) → nested_of o inner ≡ some n → n.inner ≡ inner
nested_of-length none inner n h = cc
nested_of-length (some o) inner n h = ground arith

has_prefix_ne : (part : Text) → has_prefix (codes "not.") part ≡ true → 0 < length part
unfolding has_prefix
has_prefix_ne [] h = cc
has_prefix_ne (c ∷ part) h = omega arith

nested_parts-length :
    (t : Text) (n : Nested) → nested_parts (split_n b'.' 2 t) ≡ some n → length n.inner ≤ length t
unfolding split_n
nested_parts-length t n h = elim (Option-cases (index_byte b'.' t)) [
  | inl e ↦ let h' = rw (e, split_n) at h in cc
  | inr (i, e) ↦
      let h' = rw (e, split_n) at h in
      let same = nested_of-length (group_op (take i t)) (drop (i + 1) t) n h' in
      omega (arith, ap length same, length-drop (i + 1) t)
]

-- The group inside stands behind `not.` and a name.
nested_group-length :
    (part : Text) (n : Nested) → nested_group part ≡ some n → length n.inner < length part
unfolding nested_group
nested_group-length part n h = elim (Bool-cases (has_prefix (codes "not.") part)) [
  | inl e ↦
      let shorter = nested_parts-length (drop 4 part) n (rw e at h) in
      omega (arith, shorter, length-drop 4 part, has_prefix_ne part e)
  | inr e ↦ let h' = rw e at h in cc
]

-- Two parsers that do the same on the texts below a length do the same in the loop.
module _ (f g : SubParser) (columns : Columns) (n : ℕ)
    (same : (op : FilterOp) (t : Text) → length t < n → f op t ≡ g op t) where
  add_part-same :
      (lf : LogicalFilter) (part : Text) (o : Option Nested)
      → ((m : Nested) → o ≡ some m → length m.inner < n)
      → add_part f columns lf part o ≡ add_part g columns lf part o
  unfolding add_part
  add_part-same lf part none h = refl
  add_part-same lf part (some m) h =
      ap (λ (r : Result LogicalFilter). r >>= λ l. ok (add_group lf (negated l)))
        (same m.op m.inner (h m refl))

  logical_part-same :
      (lf : LogicalFilter) (part : Text)
      → length part ≤ n
      → logical_part f columns lf part ≡ logical_part g columns lf part
  unfolding logical_part
  logical_part-same lf part h =
      ap (λ (r : Result LogicalFilter). if is_empty part then ok lf else r)
        (add_part-same lf part (nested_group part)
          (λ m e. omega (arith, nested_group-length part m e)))

  logical_parts-same :
      (lf : LogicalFilter) (parts : List Text)
      → All (λ p. length p ≤ n) parts
      → logical_parts f columns lf parts ≡ logical_parts g columns lf parts
  unfolding logical_parts
  logical_parts-same lf [] h = refl
  logical_parts-same lf (p ∷ ps) (h, hs) =
      ap (λ (r : Result LogicalFilter). r >>= λ l. logical_parts f columns l ps)
        (logical_part-same lf (trim_space p) (omega (arith, trim_space-length p)))
      ∙ >>=-same (logical_part g columns lf (trim_space p)) _ _ (λ l. logical_parts-same l ps hs)

parts-short :
    (v : Text) → All (λ p. length p ≤ length v) (split_logical_conditions (trim (codes "()") v))
parts-short v =
    let inner = trim (codes "()") v in
    All-map (λ p. length p ≤ length inner) _ (λ p h. omega (arith, h, trim-length (codes "()") v)) _
      (split-length inner)

parse_logical-same :
    (f g : ℕ) (op : FilterOp) (v : Text) (columns : Columns)
    → length v < f
    → length v < g
    → parse_logical f op v columns ≡ parse_logical g op v columns
unfolding parse_logical
parse_logical-same zero g op v columns h k = elim h [ ]
parse_logical-same (suc f) zero op v columns h k = elim k [ ]
parse_logical-same (suc f) (suc g) op v columns h k =
    let inner = trim (codes "()") v in
    logical_parts-same _ _ columns (length v)
      (λ o t e. parse_logical-same f g o t columns (omega arith) (omega arith)) (group op [] nil)
      (split_logical_conditions inner) (parts-short v)

-- The parser gave an answer: it did not run out of fuel.
abbrev Answers {ℓ} : {A : Type ℓ} → Result A → Type 0
Answers (err out_of_fuel) = ⊥
Answers _ = Unit

Answers-bind :
    {A B : Type 0} (m : Result A) (f : A → Result B)
    → Answers m
    → ((a : A) → Answers (f a))
    → Answers (m >>= f)
Answers-bind (ok a) f h k = k a
Answers-bind (err out_of_fuel) f h k = h
Answers-bind (err _) f h k = tt

known_operator-Answers :
    (col op val : Text) (negate : Bool) (o : Option Operator)
    → Answers (known_operator col op val negate o)
known_operator-Answers col op val negate none = tt
known_operator-Answers col op val negate (some o) = tt

condition_of-Answers :
    (cond : Text) (negate : Bool) (columns : Columns) (parts : List Text)
    → Answers (condition_of cond negate columns parts)
condition_of-Answers cond negate columns [] = tt
condition_of-Answers cond negate columns (col ∷ []) = tt
condition_of-Answers cond negate columns (col ∷ val ∷ []) = ground arith
condition_of-Answers cond negate columns (col ∷ op ∷ val ∷ rest) =
    ground (arith, known_operator-Answers col op val negate (valid_operator op))

parse_condition-Answers : (cond : Text) (columns : Columns) → Answers (parse_condition cond columns)
unfolding parse_condition
parse_condition-Answers cond columns = elim (Bool-cases (has_prefix (codes "not.") cond)) [
  | inl e ↦ rw e (condition_of-Answers _ true columns (split_n b'.' 3 (drop 4 cond)))
  | inr e ↦ rw e (condition_of-Answers cond false columns (split_n b'.' 3 cond))
]

module _ (f : SubParser) (columns : Columns) (n : ℕ)
    (answers : (op : FilterOp) (t : Text) → length t < n → Answers (f op t)) where
  add_part-Answers :
      (lf : LogicalFilter) (part : Text) (o : Option Nested)
      → ((m : Nested) → o ≡ some m → length m.inner < n)
      → Answers (add_part f columns lf part o)
  unfolding add_part
  add_part-Answers lf part none h =
      Answers-bind (parse_condition part columns) _ (parse_condition-Answers part columns) (λ c. tt)
  add_part-Answers lf part (some m) h =
      Answers-bind (f m.op m.inner) _ (answers m.op m.inner (h m refl)) (λ l. tt)

  logical_part-Answers :
      (lf : LogicalFilter) (part : Text)
      → length part ≤ n
      → Answers (logical_part f columns lf part)
  unfolding logical_part
  logical_part-Answers lf part h = elim (Bool-cases (is_empty part)) [
    | inl e ↦ rw e tt
    | inr e ↦ rw e (
        add_part-Answers lf part (nested_group part)
          (λ m q. omega (arith, nested_group-length part m q)))
  ]

  logical_parts-Answers :
      (lf : LogicalFilter) (parts : List Text)
      → All (λ p. length p ≤ n) parts
      → Answers (logical_parts f columns lf parts)
  unfolding logical_parts
  logical_parts-Answers lf [] h = tt
  logical_parts-Answers lf (p ∷ ps) (h, hs) =
      Answers-bind (logical_part f columns lf (trim_space p)) _
        (logical_part-Answers lf (trim_space p) (omega (arith, trim_space-length p)))
        (λ l. logical_parts-Answers l ps hs)

parse_logical-Answers :
    (f : ℕ) (op : FilterOp) (v : Text) (columns : Columns)
    → length v < f
    → Answers (parse_logical f op v columns)
unfolding parse_logical
parse_logical-Answers zero op v columns h = elim h [ ]
parse_logical-Answers (suc f) op v columns h =
    logical_parts-Answers _ columns (length v)
      (λ o t e. parse_logical-Answers f o t columns (omega arith)) (group op [] nil)
      (split_logical_conditions (trim (codes "()") v)) (parts-short v)

Answers-ne {ℓ} : {A : Type ℓ} (r : Result A) → Answers r → r ≢ err out_of_fuel
Answers-ne r h e = rw e at h

-- The parser of groups always answers: with any fuel above the length of the text it gives what it
-- gives with the fuel that the model takes, and it never runs out of fuel.
pub parse_logical-total :
    (fuel : ℕ) (op : FilterOp) (v : Text) (columns : Columns)
    → length v < fuel
    → (parse_logical fuel op v columns ≡ parse_logical_filter op v columns)
      × (parse_logical_filter op v columns ≢ err out_of_fuel)
unfolding parse_logical_filter
parse_logical-total fuel op v columns h = (
  parse_logical-same fuel (length v + 1) op v columns h (omega arith),
  Answers-ne (parse_logical (length v + 1) op v columns)
      (parse_logical-Answers (length v + 1) op v columns (omega arith)),
)
