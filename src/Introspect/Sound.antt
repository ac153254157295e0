-- ===== src/Introspect/Sound.antt =====
-- What holds of the tables that introspection builds, whatever rows it reads.
pub mod Rows
use mathlib.Core.Option.{some-injective}
use rest_trans.Prelude.{
  ◌≡◌, refl, sym, ap, ◌∙◌, ◌⊎◌, inl, inr, subst, Bool, true, false, Bool-cases, Option, none, some,
  Option-cases, List, [], ◌∷◌, ◌++◌, All, All-append, All-map, Text, text_eq, is_empty, split,
  arith,
}
use rest_trans.Prelude.Strings.Lengths.{text_eq_iff, text_eq_refl}
use rest_trans.Schema.{Column, ForeignKey, Table, find, store, is_some}
use rest_trans.Schema.Lookup.{find-store_same, find-store_other}
use rest_trans.Introspect.Comment.{Permissions, parse_comment}
use rest_trans.Introspect.{
  Fetched, query_failed, fetched, ColumnRow, ForeignKeyRow, UniqueRow, Catalogue, Tables, each_row,
  all_rows, unless_failed, column_of, with_column, table_or_new, add_table_column, add_view_column,
  update_found, update_table, first_key, mark_key, add_primary_key, kept_column, add_foreign_key,
  mark_unique, unique_columns, add_unique, with_permissions, add_permissions, permissions_by,
  introspect, ◌>>=◌,
}

-- A column of a table.
abbrev pub IsColumn : Text → List (Text × Column) → Type 0
IsColumn c columns = is_some (find c columns) ≡ true

-- The primary key, where there is one, and every column of the order are columns of the table; the
-- schema's name is not set.
pub record IsSoundTable (t : Table) : Type 0 where
  pub key_known : (t.pk ≡ []) ⊎ IsColumn t.pk t.columns
  pub order_known : All (λ c. IsColumn c t.columns) t.column_order
  pub schema_unset : t.schema_name ≡ []

-- Each table is sound and stands under its name.
abbrev pub IsEntry : Text × Table → Type 0
IsEntry (k, t) = (t.name ≡ k) × IsSoundTable t

stored-IsColumn :
    (c : Text) (v : Column) (columns : List (Text × Column)) → IsColumn c (store c v columns)
stored-IsColumn c v columns = rw (find-store_same c v columns)

store-IsColumn :
    (c k : Text) (v : Column) (columns : List (Text × Column))
    → IsColumn c columns
    → IsColumn c (store k v columns)
store-IsColumn c k v columns h = elim (Bool-cases (text_eq k c)) [
  | inl e ↦
      subst (λ i. IsColumn i (store k v columns)) ((text_eq_iff k c).0 e)
        (stored-IsColumn k v columns)
  | inr e ↦ rw (find-store_other k c v columns e) h
]

-- Where the columns only grow, a table stays sound.
pub grown-IsSoundTable :
    (t : Table) (columns : List (Text × Column))
    → ((c : Text) → IsColumn c t.columns → IsColumn c columns)
    → IsSoundTable t
    → IsSoundTable (record t { columns = columns })
grown-IsSoundTable t columns grow h = record {
  key_known = elim h.key_known [ inl e ↦ inl e | inr k ↦ inr (grow t.pk k) ];
  order_known =
      All-map (λ c. IsColumn c t.columns) (λ c. IsColumn c columns) grow t.column_order
        h.order_known;
  schema_unset = h.schema_unset;
}

stored_column-IsSoundTable :
    (t : Table) (k : Text) (v : Column)
    → IsSoundTable t
    → IsSoundTable (record t { columns = store k v t.columns })
stored_column-IsSoundTable t k v =
    grown-IsSoundTable t (store k v t.columns) (λ c. store-IsColumn c k v t.columns)

pub with_column-IsSoundTable :
    (r : ColumnRow) (t : Table) → IsSoundTable t → IsSoundTable (with_column r t)
with_column-IsSoundTable r t h =
    let g = stored_column-IsSoundTable t r.col_name (column_of r) h in
    record {
      key_known = g.key_known;
      order_known =
          All-append (λ c. IsColumn c (store r.col_name (column_of r) t.columns)) t.column_order
            (r.col_name ∷ []) g.order_known
            (stored-IsColumn r.col_name (column_of r) t.columns, tt);
      schema_unset = g.schema_unset;
    }

pub mark_key-IsSoundTable :
    (col : Text) (t : Table) (o : Option Column) → IsSoundTable t → IsSoundTable (mark_key col t o)
mark_key-IsSoundTable col t none h = h
mark_key-IsSoundTable col t (some c) h =
    let c' = record c { is_pk = true } in
    let g = stored_column-IsSoundTable t col c' h in
    elim (Bool-cases (is_empty t.pk)) [
      | inl e ↦ rw e (record {
        key_known = inr (stored-IsColumn col c' t.columns);
        order_known = g.order_known;
        schema_unset = g.schema_unset;
      })
      | inr e ↦ rw e (record {
        key_known = g.key_known;
        order_known = g.order_known;
        schema_unset = g.schema_unset;
      })
    ]

pub kept_column-grows :
    (c col : Text) (columns : List (Text × Column)) (o : Option Column)
    → IsColumn c columns
    → IsColumn c (kept_column col columns o)
kept_column-grows c col columns none h = h
kept_column-grows c col columns (some v) h = store-IsColumn c col v columns h

mark_unique-grows :
    (c col : Text) (columns : List (Text × Column)) (o : Option Column)
    → IsColumn c columns
    → IsColumn c (mark_unique col columns o)
mark_unique-grows c col columns none h = h
mark_unique-grows c col columns (some v) h =
    store-IsColumn c col (record v { is_unique = true }) columns h

pub unique_columns-grows :
    (c : Text) (names : List Text) (columns : List (Text × Column))
    → IsColumn c columns
    → IsColumn c (unique_columns names columns)
unique_columns-grows c [] columns h = h
unique_columns-grows c (n ∷ []) columns h = mark_unique-grows c n columns (find n columns) h
unique_columns-grows c (n ∷ m ∷ ns) columns h = h

-- A write keeps what holds of every entry.
pub store-All :
    (k : Text) (t : Table) (tables : Tables)
    → All IsEntry tables
    → IsEntry (k, t)
    → All IsEntry (store k t tables)
unfolding store
store-All k t [] a h = (h, tt)
store-All k t ((j, u) ∷ tables) (e, a) h = elim (Bool-cases (text_eq j k)) [
  | inl s ↦ rw s (subst (λ i. IsEntry (i, t)) (sym ((text_eq_iff j k).0 s)) h, a)
  | inr s ↦ rw s (e, store-All k t tables a h)
]

pub find-All :
    (k : Text) (tables : Tables) {t : Table}
    → All IsEntry tables
    → find k tables ≡ some t
    → IsEntry (k, t)
unfolding find
find-All k [] a h = cc
find-All k ((j, u) ∷ tables) {t} (e, a) h = elim (Bool-cases (text_eq j k)) [
  | inl s ↦
      subst (λ i. IsEntry (i, t)) ((text_eq_iff j k).0 s)
        (subst (λ v. IsEntry (j, v)) (some-injective _ _ (rw s at h)) e)
  | inr s ↦ find-All k tables a (rw s at h)
]
