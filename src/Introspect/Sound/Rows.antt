-- ===== src/Introspect/Sound/Rows.antt =====
-- Every row that introspection reads keeps its tables sound.
use rest_trans.Prelude.{
  ◌≡◌, refl, ◌∙◌, subst, inl, inr, Bool, true, false, Option, none, some, Option-cases, List, [],
  ◌∷◌, All, Text, split,
}
use mathlib.Core.Option.{some-injective}
use rest_trans.Schema.{Column, Table, find}
use rest_trans.Introspect.Comment.{parse_comment}
use rest_trans.Introspect.{
  Fetched, query_failed, fetched, ColumnRow, ForeignKeyRow, UniqueRow, Catalogue, Tables, each_row,
  all_rows, table_or_new, add_table_column, add_view_column, update_table, mark_key,
  add_primary_key, kept_column, add_foreign_key, unique_columns, add_unique, with_permissions,
  add_permissions, permissions_by, introspect, ◌>>=◌,
}
use rest_trans.Introspect.Sound.{
  IsSoundTable, IsEntry, with_column-IsSoundTable, mark_key-IsSoundTable, kept_column-grows,
  unique_columns-grows, grown-IsSoundTable, store-All, find-All,
}

abbrev pub AreSound : Tables → Type 0
AreSound = All IsEntry

table_or_new-IsEntry :
    (name : Text) (is_view : Bool) (tables : Tables) (o : Option Table)
    → AreSound tables
    → find name tables ≡ o
    → IsEntry (name, table_or_new name is_view o)
table_or_new-IsEntry name is_view tables none a h =
    (refl, record { key_known = inl refl; order_known = tt; schema_unset = refl })
table_or_new-IsEntry name is_view tables (some t) a h = find-All name tables a h

add_table_column-AreSound :
    (r : ColumnRow) (ts : Tables) → AreSound ts → AreSound (add_table_column r ts)
unfolding add_table_column
add_table_column-AreSound r ts a =
    let (e, h) = table_or_new-IsEntry r.table_name false ts (find r.table_name ts) a refl in
    store-All r.table_name _ ts a (e, with_column-IsSoundTable r _ h)

add_view_column-AreSound :
    (r : ColumnRow) (ts : Tables) → AreSound ts → AreSound (add_view_column r ts)
unfolding add_view_column
add_view_column-AreSound r ts a =
    let t = table_or_new r.table_name true (find r.table_name ts) in
    let (e, h) = table_or_new-IsEntry r.table_name true ts (find r.table_name ts) a refl in
    let viewed : IsSoundTable (record t { is_view = true }) = record {
      key_known = h.key_known;
      order_known = h.order_known;
      schema_unset = h.schema_unset;
    } in
    store-All r.table_name _ ts a
      (e, with_column-IsSoundTable r (record t { is_view = true }) viewed)

-- A change that keeps the name and the table sound.
update_table-AreSound :
    (name : Text) (change : Table → Table) (ts : Tables)
    → ((t : Table) → IsSoundTable t → ((change t).name ≡ t.name) × IsSoundTable (change t))
    → AreSound ts
    → AreSound (update_table name change ts)
unfolding update_table
update_table-AreSound name change ts keep a = elim (Option-cases (find name ts)) [
  | inl e ↦ rw e a
  | inr (t, e) ↦
      let (n, h) = find-All name ts a e in
      let (n', h') = keep t h in rw e (store-All name (change t) ts a (n' ∙ n, h'))
]

mark_key_name : (col : Text) (t : Table) (o : Option Column) → (mark_key col t o).name ≡ t.name
mark_key_name col t none = refl
mark_key_name col t (some c) = refl

add_primary_key-AreSound :
    (r : Text × Text) (ts : Tables) → AreSound ts → AreSound (add_primary_key r ts)
unfolding add_primary_key
add_primary_key-AreSound (table, col) ts a =
    update_table-AreSound table _ ts
      (λ t h. (mark_key_name col t _, mark_key-IsSoundTable col t (find col t.columns) h)) a

add_foreign_key-AreSound :
    (r : ForeignKeyRow) (ts : Tables) → AreSound ts → AreSound (add_foreign_key r ts)
unfolding add_foreign_key
add_foreign_key-AreSound r ts a =
    let col = r.foreign_key.column_name in
    update_table-AreSound r.table_name _ ts
      (λ t h.
        let g =
          grown-IsSoundTable t (kept_column col t.columns (find col t.columns))
            (λ c. kept_column-grows c col t.columns (find col t.columns)) h in
        (
          refl,
          record {
            key_known = g.key_known;
            order_known = g.order_known;
            schema_unset = g.schema_unset;
          },
        ))
      a

add_unique-AreSound : (r : UniqueRow) (ts : Tables) → AreSound ts → AreSound (add_unique r ts)
unfolding add_unique
add_unique-AreSound r ts a =
    let names = split b',' r.columns in
    update_table-AreSound r.table_name _ ts
      (λ t h.
        let g =
          grown-IsSoundTable t (unique_columns names t.columns)
            (λ c. unique_columns-grows c names t.columns) h in
        (
          refl,
          record {
            key_known = g.key_known;
            order_known = g.order_known;
            schema_unset = g.schema_unset;
          },
        ))
      a

add_permissions-AreSound :
    (rows : List (Option (Text × Text))) (ts : Tables)
    → AreSound ts
    → AreSound (add_permissions rows ts)
unfolding add_permissions
add_permissions-AreSound [] ts a = a
add_permissions-AreSound (none ∷ rows) ts a = add_permissions-AreSound rows ts a
add_permissions-AreSound (some (table, comment) ∷ rows) ts a =
    let p = parse_comment comment in
    add_permissions-AreSound rows (update_table table (with_permissions p) ts) (
      update_table-AreSound table (with_permissions p) ts
        (λ t h. (
          refl,
          record {
            key_known = h.key_known;
            order_known = h.order_known;
            schema_unset = h.schema_unset;
          },
        ))
        a)

permissions_by-AreSound :
    (f : Fetched (Text × Text)) (ts : Tables) → AreSound ts → AreSound (permissions_by f ts)
permissions_by-AreSound query_failed ts a = a
permissions_by-AreSound (fetched rows at_end) ts a = add_permissions-AreSound rows ts a

module _ {R : Type 0} (step : R → Tables → Tables)
    (keep : (r : R) (ts : Tables) → AreSound ts → AreSound (step r ts)) where
  each_row-AreSound :
      (rows : List (Option R)) (ts : Tables) {ts' : Tables}
      → AreSound ts
      → each_row step rows ts ≡ some ts'
      → AreSound ts'
  unfolding each_row
  each_row-AreSound [] ts a h = subst AreSound (some-injective _ _ h) a
  each_row-AreSound (none ∷ rows) ts a h = cc
  each_row-AreSound (some r ∷ rows) ts a h = each_row-AreSound rows (step r ts) (keep r ts a) h

  all_rows-AreSound :
      (f : Fetched R) (ts : Tables) {ts' : Tables}
      → AreSound ts
      → all_rows step f ts ≡ some ts'
      → AreSound ts'
  all_rows-AreSound query_failed ts a h = cc
  all_rows-AreSound (fetched rows true) ts a h = cc
  all_rows-AreSound (fetched rows false) ts a h = each_row-AreSound rows ts a h

>>=-eq-some :
    {A B : Type 0} (m : Option A) (k : A → Option B) {b : B}
    → (m >>= k) ≡ some b
    → (a : A) × (m ≡ some a) × (k a ≡ some b)
>>=-eq-some none k h = cc
>>=-eq-some (some a) k h = (a, refl, h)

-- Whatever the catalogue answers, in the tables that introspection gives each stands under its own
-- name, its primary key is empty or one of its columns, so is every column of its order, and its
-- schema's name is not set.
pub introspect-AreSound :
    (c : Catalogue) (s : Text) {ts : Tables} → introspect c s ≡ some ts → AreSound ts
unfolding introspect
introspect-AreSound c s h =
    let (t1, e1, h1) = >>=-eq-some (all_rows add_table_column (c.columns s) []) _ h in
    let (t2, e2, h2) = >>=-eq-some (all_rows add_view_column (c.view_columns s) t1) _ h1 in
    let (t3, e3, h3) = >>=-eq-some (all_rows add_primary_key (c.primary_keys s) t2) _ h2 in
    let (t4, e4, h4) = >>=-eq-some (all_rows add_foreign_key (c.foreign_keys s) t3) _ h3 in
    let (t5, e5, h5) = >>=-eq-some (all_rows add_unique (c.unique_constraints s) t4) _ h4 in
    let a1 = all_rows-AreSound add_table_column add_table_column-AreSound (c.columns s) [] tt e1 in
    let a2 =
      all_rows-AreSound add_view_column add_view_column-AreSound (c.view_columns s) t1 a1 e2 in
    let a3 =
      all_rows-AreSound add_primary_key add_primary_key-AreSound (c.primary_keys s) t2 a2 e3 in
    let a4 =
      all_rows-AreSound add_foreign_key add_foreign_key-AreSound (c.foreign_keys s) t3 a3 e4 in
    let a5 = all_rows-AreSound add_unique add_unique-AreSound (c.unique_constraints s) t4 a4 e5 in
    subst AreSound (some-injective _ _ h5) (permissions_by-AreSound (c.comments s) t5 a5)
