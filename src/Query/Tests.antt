-- ===== src/Query/Tests.antt =====
-- Runs of internal/query on inputs of params_test.go and builder_test.go.
use rest_trans.Prelude.{
  true, false, [], ◌∷◌, ◌||◌, some, none, ◌≡◌, ◌≢◌, ◌≤◌, refl, Text, codes, text_eq, decimal, ok,
  err, column_not_found, out_of_fuel, arith, trim, length,
}
use rest_trans.Prelude.Int.{pos, negsuc, atoi}
use rest_trans.Query.Operator.{Operator}
use rest_trans.Query.Params.{Params, no_params, logical_or, group, nil, cons, Filter, desc, asc}
use rest_trans.Query.Filters.{Columns, parse_filter}
use rest_trans.Query.Filters.RoundTrip.{any_of, print_value, printed, parse_filter-print}
use rest_trans.Query.InValues.{parse_in_values}
use rest_trans.Query.InValues.Quotes.{quoted_values_merge}
use rest_trans.Query.Logical.{parse_logical, parse_logical_filter}
use rest_trans.Query.Logical.Fuel.{parse_logical-total}
use rest_trans.Query.Scan.{split_logical_conditions}
use rest_trans.Query.Scan.Join.{Rejoins, split_logical_conditions-Rejoins}
use rest_trans.Query.Parse.{Pairs, apply_pair, parse}
use rest_trans.Query.Parse.Known.{parse-IsKnown}
use rest_trans.Query.Parse.Known.Groups.{IsKnown}
use rest_trans.Query.Parse.Negation.{negated_or-eq-and}

abbrev columns : Columns
columns c = text_eq c (codes "age") || text_eq c (codes "name") || text_eq c (codes "status")

abbrev in_order : Pairs → Pairs
in_order ps = ps

abbrev plain : Text → Operator → Text → Filter
plain c o v = record { column = c; operator = o; value = v; negate = false; modifier = [] }

abbrev age : Text
age = codes "age"

parse-filter :
    parse in_order (codes "age=gte.18&name=not.like.J*") columns
    ≡ ok (record no_params {
      filters =
          plain age Operator.gte (codes "18")
          ∷ record (plain (codes "name") Operator.like (codes "J*")) { negate = true }
          ∷ [];
    })
unfolding parse text_eq
parse-filter = refl

parse_or :
    parse in_order (codes "_or=(age.lt.18,age.gt.65)") columns
    ≡ ok (record no_params {
      logicals =
          cons
            (group logical_or
              (plain age Operator.lt (codes "18") ∷ plain age Operator.gt (codes "65") ∷ [])
              nil)
            nil;
    })
unfolding parse text_eq
parse_or = refl

parse_order_limit :
    parse in_order (codes "_order=age.desc,name.asc&_limit=10&_offset=20") columns
    ≡ ok (record no_params {
      order =
          record { column = age; direction = desc; nulls = codes "nulls first" }
          ∷ record { column = codes "name"; direction = asc; nulls = codes "nulls first" }
          ∷ [];
      range = record { limit = pos 10; offset = pos 20 };
    })
unfolding parse text_eq
parse_order_limit = refl

parse_unknown : parse in_order (codes "x=eq.1") columns ≡ err (column_not_found (codes "x"))
unfolding parse text_eq
parse_unknown = refl

in_values : parse_in_values (codes "(1, 2,3)") ≡ codes "1" ∷ codes "2" ∷ codes "3" ∷ []
unfolding parse_in_values
in_values = refl

split_nested :
    split_logical_conditions (codes "a.eq.1,not.or.(b.eq.2,c.eq.3),")
    ≡ codes "a.eq.1" ∷ codes "not.or.(b.eq.2,c.eq.3)" ∷ []
unfolding split_logical_conditions
split_nested = refl

numbers : (decimal 2026 ≡ codes "2026") × (atoi (codes "-12") ≡ some (negsuc 11)) × (atoi [] ≡ none)
unfolding decimal atoi
numbers = (refl, refl, refl)

abbrev one_filter : Params
one_filter = record no_params { filters = plain age Operator.gte (codes "18") ∷ [] }

parse-IsKnown_example : IsKnown columns one_filter
unfolding parse text_eq
parse-IsKnown_example = parse-IsKnown in_order (codes "age=gte.18") columns refl

abbrev a_group : Text
a_group = codes "(age.lt.18,not.or.(age.gt.65,name.eq.x))"

parse_logical-total_example :
    (parse_logical 60 logical_or a_group columns ≡ parse_logical_filter logical_or a_group columns)
    × (parse_logical_filter logical_or a_group columns ≢ err out_of_fuel)
parse_logical-total_example = parse_logical-total 60 logical_or a_group columns (omega arith)

split_logical_conditions-Rejoins_example :
    Rejoins (split_logical_conditions (codes "a.eq.1,b.in.(2,3),")) (codes "a.eq.1,b.in.(2,3),")
split_logical_conditions-Rejoins_example =
    split_logical_conditions-Rejoins (codes "a.eq.1,b.in.(2,3),")

quoted_values_merge_example : length (parse_in_values (codes "(\"a\",\"b\")")) ≤ 1
unfolding trim
quoted_values_merge_example = quoted_values_merge (codes "(\"a\",\"b\")") (codes "a\",\"b\"") refl

parse_filter-print_example :
    parse_filter age (print_value true Operator.gte any_of (codes "18")) columns
    ≡ ok (printed age true Operator.gte any_of (codes "18"))
unfolding text_eq
parse_filter-print_example =
    parse_filter-print columns age true Operator.gte any_of (codes "18") refl tt

negated_or-eq-and_example :
    apply_pair columns no_params (codes "_not.or") a_group
    ≡ apply_pair columns no_params (codes "_not.and") a_group
negated_or-eq-and_example = negated_or-eq-and columns no_params a_group
