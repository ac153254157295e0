-- ===== src/Query/Filters/RoundTrip.antt =====
-- The text of a filter, as a client writes it, and its parser.
use rest_trans.Prelude.{
  ◌≡◌, refl, ap, Bool, true, false, none, [], ◌∷◌, ◌++◌, Text, codes, has_prefix, index_byte,
  if◌then◌else◌, ok,
}
use rest_trans.Query.Operator.{Operator, name}
use rest_trans.Query.Params.{Filter}
use rest_trans.Query.Filters.{Columns, take_modifier, take_operator, filter_of, parse_filter}

-- `any` or `all`, or none.
pub data Modifier : Type 0 where
  no_modifier any_of all_of : Modifier

abbrev pub modifier_text : Modifier → Text
modifier_text no_modifier = []
modifier_text any_of = codes "any"
modifier_text all_of = codes "all"

abbrev pub in_parens : Modifier → Text → Text
in_parens no_modifier rest = rest
in_parens any_of rest = codes "(any)" ++ rest
in_parens all_of rest = codes "(all)" ++ rest

-- `op.value`, `op(any).value` and the like.
abbrev pub print_condition : Operator → Modifier → Text → Text
print_condition o m v = name o ++ in_parens m (b'.' ∷ v)

abbrev pub print_value : Bool → Operator → Modifier → Text → Text
print_value negate o m v =
    if negate then codes "not." ++ print_condition o m v else print_condition o m v

-- A value with a parenthesis in it needs a modifier in front.
abbrev pub FitsModifier : Modifier → Text → Type 0
FitsModifier no_modifier v = index_byte b'(' v ≡ none
FitsModifier _ v = Unit

take_operator-name :
    (o : Operator) (v : Text) → take_operator (name o ++ b'.' ∷ v) ≡ record { op = o; val = v }
unfolding take_operator
take_operator-name Operator.eq v = refl
take_operator-name _ v = refl

take_modifier-none :
    (o : Operator) (v : Text)
    → index_byte b'(' v ≡ none
    → take_modifier (name o ++ b'.' ∷ v) ≡ record { rest = name o ++ b'.' ∷ v; modifier = [] }
unfolding take_modifier
take_modifier-none Operator.eq v h = rw (h, index_byte)
take_modifier-none _ v h = rw (h, index_byte)

take_modifier-some :
    (o : Operator) (v : Text)
    → (take_modifier (print_condition o any_of v)
        ≡ record { rest = name o ++ b'.' ∷ v; modifier = codes "any" })
      × (take_modifier (print_condition o all_of v)
          ≡ record { rest = name o ++ b'.' ∷ v; modifier = codes "all" })
unfolding take_modifier
take_modifier-some Operator.eq v = (refl, refl)
take_modifier-some _ v = (refl, refl)

take_modifier-print :
    (o : Operator) (m : Modifier) (v : Text)
    → FitsModifier m v
    → take_modifier (print_condition o m v)
      ≡ record { rest = name o ++ b'.' ∷ v; modifier = modifier_text m }
take_modifier-print o no_modifier v h = take_modifier-none o v h
take_modifier-print o any_of v h = (take_modifier-some o v).0
take_modifier-print o all_of v h = (take_modifier-some o v).1

abbrev pub printed : Text → Bool → Operator → Modifier → Text → Filter
printed key negate o m v = record {
  column = key;
  operator = o;
  value = v;
  negate = negate;
  modifier = modifier_text m;
}

filter_of-print :
    (key : Text) (negate : Bool) (o : Operator) (m : Modifier) (v : Text)
    → FitsModifier m v
    → filter_of key negate (print_condition o m v) ≡ printed key negate o m v
filter_of-print key negate o m v h = rw (take_modifier-print o m v h, take_operator-name)

not_a_negation :
    (o : Operator) (m : Modifier) (v : Text)
    → has_prefix (codes "not.") (print_condition o m v) ≡ false
unfolding has_prefix
not_a_negation Operator.eq m v = refl
not_a_negation Operator.neq no_modifier v = refl
not_a_negation Operator.neq _ v = refl
not_a_negation Operator.not_strictly_left m v = refl
not_a_negation Operator.not_strictly_right m v = refl
not_a_negation _ m v = refl

-- A filter written as `[not.]op[(any|all)].value` on a known column is parsed to the filter that
-- was written, for every operator, negation, modifier and value; where no modifier is written the
-- value must hold no opening parenthesis.
pub parse_filter-print :
    (columns : Columns) (key : Text) (negate : Bool) (o : Operator) (m : Modifier) (v : Text)
    → columns key ≡ true
    → FitsModifier m v
    → parse_filter key (print_value negate o m v) columns ≡ ok (printed key negate o m v)
unfolding parse_filter
parse_filter-print columns key true o m v c h = rw c (ap ok (filter_of-print key true o m v h))
parse_filter-print columns key false o m v c h =
    rw (c, not_a_negation o m v) (ap ok (filter_of-print key false o m v h))
