-- ===== src/Query/Builder/Select/Parts.antt =====
-- The parts of a SELECT that have no placeholder.
use rest_trans.Prelude.{
  List, [], ◌∷◌, ◌++◌, ◌≡◌, refl, ◌∙◌, arith, Text, Option, none, some, Bool, true, false, Holds,
  Holds-bind, Bool-cases, inl, inr,
}
use rest_trans.Sql.{Sql, is_blank, join_sql, lit, placeholders}
use rest_trans.Sql.Numbering.{
  placeholders-append, all_placeholders, all_placeholders-append, placeholders-join_sql,
}
use rest_trans.Query.Builder.Where.{Builder, qualified_table}
use rest_trans.Schema.{Table, Column, ForeignKey, SchemaStore, ordered_columns, is_some, find}
use rest_trans.Query.Params.{Embed, Aggregate}
use rest_trans.Prelude.Int.{ℤ, pos, negsuc}
use rest_trans.Query.Builder.Select.{
  select_columns, embed_table, all_json_columns, chosen_json_columns, json_columns, json_object,
  embed_from, embed_selects, aggregate_selects, chosen, select_list, backward_join, forward_join,
  join_from, embed_joins, key_to, build_embed_joins, limit_clause, offset_clause, clause,
}

-- A text, or texts, with no placeholder.
abbrev pub Plain : Sql → Type 0
Plain s = placeholders s ≡ []

abbrev AllPlain : List Sql → Type 0
AllPlain ss = all_placeholders ss ≡ []

join-Plain : (sep : Sql) (ss : List Sql) → Plain sep → AllPlain ss → Plain (join_sql sep ss)
join-Plain sep ss h hs = placeholders-join_sql sep ss h ∙ hs

AllPlain-append : (xs ys : List Sql) → AllPlain xs → AllPlain ys → AllPlain (xs ++ ys)
AllPlain-append xs ys h k = rw (all_placeholders-append, h, k)

pub clause-Plain : (word s : Sql) → Plain word → Plain s → Plain (clause word s)
clause-Plain word s h k = elim (Bool-cases (is_blank s)) [
  | inl e ↦ rw e
  | inr e ↦ rw (e, placeholders-append, h, k)
]

all_json-AllPlain : (table : Text) (cols : List Column) → AllPlain (all_json_columns table cols)
unfolding all_json_columns
all_json-AllPlain table [] = refl
all_json-AllPlain table (c ∷ cols) = all_json-AllPlain table cols

chosen_json-AllPlain :
    (table : Text) (ref : Table) (cols : List Text) → AllPlain (chosen_json_columns table ref cols)
unfolding chosen_json_columns
chosen_json-AllPlain table ref [] = refl
chosen_json-AllPlain table ref (c ∷ cols) = ground (arith, chosen_json-AllPlain table ref cols)

json_columns-AllPlain :
    (e : Embed) (ref : Table) (cols : List Text) → AllPlain (json_columns e ref cols)
json_columns-AllPlain e ref [] = all_json-AllPlain e.table (ordered_columns ref)
json_columns-AllPlain e ref (c ∷ cols) = chosen_json-AllPlain e.table ref (c ∷ cols)

json_object-Plain : (table : Text) (ss : List Sql) → AllPlain ss → Plain (json_object table ss)
json_object-Plain table [] h = refl
json_object-Plain table (s ∷ ss) h = simp (placeholders-append, placeholders-join_sql) (simp h)

embed_from-Plain : (e : Embed) (o : Option Table) → Plain (embed_from e o)
embed_from-Plain e none = refl
embed_from-Plain e (some ref) =
    json_object-Plain e.table (json_columns e ref e.select) (json_columns-AllPlain e ref e.select)

embed_selects-AllPlain :
    (ss : Option SchemaStore) (es : List Embed) → AllPlain (embed_selects ss es)
unfolding embed_selects
embed_selects-AllPlain ss [] = refl
embed_selects-AllPlain none (e ∷ es) = embed_selects-AllPlain none es
embed_selects-AllPlain (some ss) (e ∷ es) =
    rw (embed_from-Plain e (embed_table ss e.table)) (embed_selects-AllPlain (some ss) es)

aggregate_selects-AllPlain : (q : Text) (xs : List Aggregate) → AllPlain (aggregate_selects q xs)
unfolding aggregate_selects
aggregate_selects-AllPlain q [] = refl
aggregate_selects-AllPlain q (a ∷ rest) = aggregate_selects-AllPlain q rest

select_columns-AllPlain :
    (t : Table) (q : Text) (cols : List Text) → Holds AllPlain (select_columns t q cols)
unfolding select_columns
select_columns-AllPlain t q [] = refl
select_columns-AllPlain t q (c ∷ cols) = elim (Bool-cases (is_some (find c t.columns))) [
  | inl e ↦ rw e (
      Holds-bind AllPlain AllPlain (select_columns t q cols) _ (select_columns-AllPlain t q cols)
        (λ ss h. h))
  | inr e ↦ rw e tt
]

chosen-Plain :
    (b : Builder) (t : Table) (q : Text) (no_choice : Bool) → Holds Plain (chosen b t q no_choice)
chosen-Plain b t q true = refl
chosen-Plain b t q false =
    Holds-bind AllPlain Plain (select_columns t q b.params.select) _
      (select_columns-AllPlain t q b.params.select)
      (λ ss h. join-Plain _ _ refl (
        AllPlain-append ss _ h (
          AllPlain-append (embed_selects b.store b.params.embeds) _
            (embed_selects-AllPlain b.store b.params.embeds)
            (aggregate_selects-AllPlain q b.params.aggregates))))

pub select_list-Plain : (b : Builder) (t : Table) → Holds Plain (select_list b t)
unfolding select_list
select_list-Plain b t = chosen-Plain b t (qualified_table b t) _

-- The joins.
backward-AllPlain :
    (ref : Table) (e : Embed) (q pk : Text) (k : Option ForeignKey)
    → AllPlain (backward_join ref e q pk k)
backward-AllPlain ref e q pk none = refl
backward-AllPlain ref e q pk (some k) = refl

forward-AllPlain :
    (t ref : Table) (e : Embed) (q : Text) (k : Option ForeignKey)
    → AllPlain (forward_join t ref e q k)
forward-AllPlain t ref e q none = backward-AllPlain ref e q t.pk (key_to t.name ref.foreign_keys)
forward-AllPlain t ref e q (some k) = refl

join_from-AllPlain :
    (t : Table) (e : Embed) (q : Text) (o : Option Table) → AllPlain (join_from t e q o)
join_from-AllPlain t e q none = refl
join_from-AllPlain t e q (some ref) = forward-AllPlain t ref e q (key_to e.table t.foreign_keys)

embed_joins-AllPlain :
    (t : Table) (ss : SchemaStore) (q : Text) (es : List Embed) → AllPlain (embed_joins t ss q es)
unfolding embed_joins
embed_joins-AllPlain t ss q [] = refl
embed_joins-AllPlain t ss q (e ∷ es) =
    AllPlain-append (join_from t e q (embed_table ss e.table)) _
      (join_from-AllPlain t e q (embed_table ss e.table)) (embed_joins-AllPlain t ss q es)

store_joins-Plain :
    (b : Builder) (t : Table) (o : Option SchemaStore) → b.store ≡ o → Plain (build_embed_joins b t)
unfolding build_embed_joins
store_joins-Plain b t none e = rw (e, build_embed_joins)
store_joins-Plain b t (some ss) e =
    rw (e, build_embed_joins)
      (join-Plain (lit " ") (embed_joins t ss (qualified_table b t) b.params.embeds) refl
        (embed_joins-AllPlain t ss (qualified_table b t) b.params.embeds))

pub build_embed_joins-Plain : (b : Builder) (t : Table) → Plain (build_embed_joins b t)
build_embed_joins-Plain b t = store_joins-Plain b t b.store refl

pub limit-Plain : (n : ℤ) → Plain (limit_clause n)
limit-Plain (pos n) = refl
limit-Plain (negsuc n) = refl

pub offset-Plain : (n : ℤ) → Plain (offset_clause n)
offset-Plain (pos n) = ground arith
offset-Plain (negsuc n) = refl
