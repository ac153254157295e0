-- ===== src/Query/Builder/Tests.antt =====
-- Runs of internal/query/builder.go on a table of two columns.
use rest_trans.Prelude.{false, [], ◌∷◌, some, none, ◌≡◌, refl, Text, codes, Result, ok, err}
use rest_trans.Sql.{Sql, placeholders, render}
use rest_trans.Sql.Numbering.{IsNumbered}
use rest_trans.Schema.{Column, Table}
use rest_trans.Query.Operator.{Operator}
use rest_trans.Query.Params.{Params, no_params, Filter, logical_or, group, nil, cons}
use rest_trans.Query.Builder.Where.{Builder, Cond, build_where}
use rest_trans.Query.Builder.Where.Numbered.{build_where-IsNumbered}
use rest_trans.Query.Builder.Select.{Statement, build_select, build_count}
use rest_trans.Query.Builder.Select.Numbered.{IsSelectNumbered, build_select-IsSelectNumbered}
use rest_trans.Query.Builder.Write.{build_insert, build_upsert, build_update, build_delete}

abbrev column : Text → Column
column name = record {
  name = name;
  data_type = codes "text";
  is_nullable = false;
  is_pk = false;
  is_unique = false;
  default_value = [];
  ordinal_pos = 1;
  character_max_len = 0;
}

abbrev age : Text
age = codes "age"

abbrev users : Table
users = record {
  name = codes "users";
  schema_name = codes "public";
  columns = (codes "id", column (codes "id")) ∷ (age, column age) ∷ [];
  column_order = codes "id" ∷ age ∷ [];
  pk = codes "id";
  is_view = false;
  foreign_keys = [];
  unique_constraints = [];
  allowed_methods = none;
  deny_methods = [];
  fts_language = [];
}

abbrev test : Text → Operator → Text → Filter
test c o v = record { column = c; operator = o; value = v; negate = false; modifier = [] }

-- `age=gte.18&_or=(age.lt.5,id.in.(1,2))`.
abbrev conditions : Params
conditions = record no_params {
  filters = test age Operator.gte (codes "18") ∷ [];
  logicals =
      cons
        (group logical_or
          (test age Operator.lt (codes "5")
            ∷ test (codes "id") Operator.in_list (codes "(1,2)")
            ∷ [])
          nil)
        nil;
}

abbrev builder : Params → Builder
builder p = record { table = some users; params = p; schema_name = codes "public"; store = none }

abbrev searching : Params
searching = record conditions {
  fts_filters = record { column = age; search_term = codes "old"; negate = false } ∷ [];
}

abbrev value_of : {A : Type 0} → A → Result A → A
value_of d (ok a) = a
value_of d (err e) = d

abbrev where_built : Cond
where_built =
    value_of (record { sql = []; args = []; next = 0 }) (build_where (builder conditions) 1)

where_text :
    (render where_built.sql ≡ codes "age >= $1 AND (age < $2 OR id IN ($3, $4))")
    × (where_built.args ≡ codes "18" ∷ codes "5" ∷ codes "1" ∷ codes "2" ∷ [])
unfolding build_where render
where_text = (refl, refl)

build_where-IsNumbered_example :
    IsNumbered 1 (placeholders where_built.sql) where_built.args where_built.next
unfolding build_where
build_where-IsNumbered_example = build_where-IsNumbered (builder conditions) 1 refl

abbrev select_built : Statement
select_built = value_of (record { sql = []; args = [] }) (build_select (builder searching))

build_select-IsSelectNumbered_example : IsSelectNumbered (builder searching) select_built
unfolding build_select
build_select-IsSelectNumbered_example = build_select-IsSelectNumbered (builder searching) refl

abbrev count_built : Statement
count_built = value_of (record { sql = []; args = [] }) (build_count (builder conditions))

abbrev insert_built : Sql
insert_built = value_of [] (build_insert (builder no_params) (codes "id" ∷ age ∷ []) 2)

insert_text : render insert_built ≡ codes "INSERT INTO users (id, age) VALUES ($1, $2), ($3, $4)"
unfolding build_insert render
insert_text = refl

abbrev upsert_built : Sql
upsert_built =
    value_of [] (build_upsert (builder no_params) (codes "id" ∷ age ∷ []) (codes "id" ∷ []) 1)

abbrev update_built : Statement
update_built =
    value_of (record { sql = []; args = [] }) (build_update (builder conditions) (age ∷ []))

abbrev delete_built : Statement
delete_built = value_of (record { sql = []; args = [] }) (build_delete (builder conditions))
