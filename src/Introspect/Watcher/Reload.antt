-- ===== src/Introspect/Watcher/Reload.antt =====
-- What the store answers after a hot reload.
use rest_trans.Prelude.{
  ◌≡◌, refl, ap, ◌∙◌, subst, Bool, false, Bool-cases, inl, inr, Option, none, some, Option-cases,
  List, [], ◌∷◌, Text, text_eq, is_empty,
}
use rest_trans.Prelude.Strings.Lengths.{text_eq_iff}
use rest_trans.Schema.{
  Table, SchemaStore, find, store, get_table, or_empty, qualified_name, qualify, resolve,
}
use rest_trans.Schema.Functions.{Function}
use rest_trans.Schema.Lookup.{find-store_same, find-store_other}
use rest_trans.Introspect.{Catalogue, Tables, introspect, introspect_functions}
use rest_trans.Introspect.Sound.{find-All}
use rest_trans.Introspect.Sound.Rows.{introspect-AreSound}
use rest_trans.Introspect.Watcher.{
  trim_spaces, Fresh, with_functions, with_tables, read_schemas, nothing_read, refresh,
}

find_nil : (name : Text) → find {V = Table} name [] ≡ none
unfolding find
find_nil name = refl

module _ (c : Catalogue) where
  -- What a schema's tables are after the loop: those that introspection gives, or none.
  AreRead : Text → Option Tables → Type 0
  AreRead k none = Unit {0}
  AreRead k (some ts) = introspect c k ≡ some ts

  with_functions-schemas :
      (s : Text) (o : Option (List (Text × Function))) (f : Fresh)
      → (with_functions s o f).schemas ≡ f.schemas
  with_functions-schemas s none f = refl
  with_functions-schemas s (some functions) f = refl

  store-AreRead :
      (k s : Text) (ts : Tables) (m : List (Text × Tables))
      → introspect c s ≡ some ts
      → AreRead k (find k m)
      → AreRead k (find k (store s ts m))
  unfolding AreRead
  store-AreRead k s ts m e h = elim (Bool-cases (text_eq s k)) [
    | inl same ↦
        let k_eq = (text_eq_iff s k).0 same in
        subst (λ i. AreRead i (find i (store s ts m))) k_eq (rw (find-store_same s ts m) e)
    | inr other ↦ rw (find-store_other s k ts m other) h
  ]

  with_tables-AreRead :
      (k s : Text) (o : Option Tables) (fs : Option (List (Text × Function))) (f : Fresh)
      → introspect c s ≡ o
      → AreRead k (find k f.schemas)
      → AreRead k (find k (with_tables s o fs f).schemas)
  with_tables-AreRead k s none fs f e h = h
  with_tables-AreRead k s (some ts) fs f e h =
      rw (with_functions-schemas s fs (record f { schemas = store s ts f.schemas }))
        (store-AreRead k s ts f.schemas e h)

  read_schemas-AreRead :
      (k : Text) (schemas : List Text) (f : Fresh)
      → AreRead k (find k f.schemas)
      → AreRead k (find k (read_schemas c schemas f).schemas)
  unfolding read_schemas
  read_schemas-AreRead k [] f h = h
  read_schemas-AreRead k (text ∷ schemas) f h =
      let s = trim_spaces text in
      read_schemas-AreRead k schemas _
        (with_tables-AreRead k s (introspect c s) (introspect_functions c s) f refl h)

  all_AreRead :
      (k : Text) (schemas : List Text)
      → AreRead k (find k (read_schemas c schemas nothing_read).schemas)
  unfolding find AreRead
  all_AreRead k schemas = read_schemas-AreRead k schemas nothing_read tt

  -- A table that the store gives after a reload is one that introspection of its schema gave.
  found-AreRead :
      (k name : Text) (o : Option Tables) {t : Table}
      → AreRead k o
      → find name (or_empty o) ≡ some t
      → (ts : Tables) × (introspect c k ≡ some ts) × (find name ts ≡ some t)
  unfolding AreRead find
  found-AreRead k name none h e = cc
  found-AreRead k name (some ts) h e = (ts, h, e)

  given : (k : Text) (ts : Tables) → AreRead k (some ts) → introspect c k ≡ some ts
  unfolding AreRead
  given k ts h = h

  -- A reload takes away all tables of a schema whose introspection fails, whatever the store had
  -- before: a lookup in it finds nothing.
  pub get_table-refresh_failed :
      (schemas : List Text) (auto_notify : Bool) (ss : SchemaStore) (k name : Text)
      → is_empty k ≡ false
      → introspect c k ≡ none
      → get_table (refresh c schemas auto_notify ss).0 k name ≡ none
  unfolding get_table refresh
  get_table-refresh_failed schemas auto_notify ss k name h failed =
      let read = read_schemas c schemas nothing_read in
      elim (Option-cases (find k read.schemas)) [
        | inl e ↦ rw (h, e) (find_nil name)
        | inr (ts, e) ↦
            let there : AreRead k (some ts) = subst (AreRead k) e (all_AreRead k schemas) in
            cc (given k ts there)
      ]

  -- After a reload no table knows its schema: the name that is written into SQL is its bare name,
  -- whatever schema it was found in.
  pub qualified_name-refresh :
      (schemas : List Text) (auto_notify : Bool) (ss : SchemaStore) (k name : Text) {t : Table}
      → get_table (refresh c schemas auto_notify ss).0 k name ≡ some t
      → qualified_name t ≡ name
  unfolding get_table refresh qualified_name
  qualified_name-refresh schemas auto_notify ss k name {t} h =
      let key = resolve (refresh c schemas auto_notify ss).0 k in
      let (ts, e, f) =
        found-AreRead key name (find key (read_schemas c schemas nothing_read).schemas)
          (all_AreRead key schemas) h in
      let (n, sound) = find-All name ts (introspect-AreSound c key e) f in
      ap (λ s. qualify s t.name) sound.schema_unset ∙ n
