-- ===== src/Schema/Lookup.antt =====
-- What the store answers after a table has been added.
use rest_trans.Prelude.{
  ◌≡◌, refl, sym, ap, ◌∙◌, false, Option, some, List, [], ◌∷◌, Text, text_eq, if◌then◌else◌,
  Bool-cases, inl, inr,
}
use rest_trans.Prelude.Strings.Lengths.{text_eq_iff, text_eq_refl}
use rest_trans.Schema.{Table, find, store, SchemaStore, or_empty, add_table, get_table, resolve}

module _ {ℓ} {V : Type ℓ} where
  pub find-store_same : (k : Text) (v : V) (m : List (Text × V)) → find k (store k v m) ≡ some v
  unfolding find store
  find-store_same k v [] = rw (text_eq_refl k, find)
  find-store_same k v ((j, w) ∷ m) = elim (Bool-cases (text_eq j k)) [
    | inl e ↦ rw (e, store, find, e)
    | inr e ↦ rw (e, store, find, e) (find-store_same k v m)
  ]

  pub find-store_other :
      (k k' : Text) (v : V) (m : List (Text × V))
      → text_eq k k' ≡ false
      → find k' (store k v m) ≡ find k' m
  unfolding find store
  find-store_other k k' v [] h = rw (h, find)
  find-store_other k k' v ((j, w) ∷ m) h = elim (Bool-cases (text_eq j k)) [
    | inl e ↦
        let other : text_eq j k' ≡ false = rw ((text_eq_iff j k).0 e) h in
        rw (e, store, other, find)
    | inr e ↦ elim (Bool-cases (text_eq j k')) [
      | inl o ↦ rw (e, store, o, find)
      | inr o ↦ rw (e, store, o, find) (find-store_other k k' v m h)
    ]
  ]

-- What a lookup finds where tables are added in turn, by the name that they are added under.
pub answer : SchemaStore → Text → Table → Text → Text → Option Table
answer ss schema_name t asked name =
    if text_eq schema_name (resolve ss asked)
    then if text_eq t.name name
      then some (record t { schema_name = schema_name })
      else get_table ss asked name
    else get_table ss asked name

-- After a table has been added, a lookup finds it under its schema, or under no schema where its
-- own is the default one, and under its name; every other lookup finds what it found before.
get_table-add_table :
    (ss : SchemaStore) (schema_name : Text) (t : Table) (asked name : Text)
    → get_table (add_table ss schema_name t) asked name ≡ answer ss schema_name t asked name
unfolding get_table add_table answer
get_table-add_table ss schema_name t asked name =
    let key = resolve ss asked in
    let t' = record t { schema_name = schema_name } in
    let old = or_empty (find schema_name ss.schemas) in
    elim (Bool-cases (text_eq schema_name key)) [
      | inl e ↦
          let k = (text_eq_iff schema_name key).0 e in
          let hit : find key (store schema_name (store t.name t' old) ss.schemas)
              ≡ some (store t.name t' old) =
            rw (sym k) (find-store_same schema_name (store t.name t' old) ss.schemas) in
          elim (Bool-cases (text_eq t.name name)) [
            | inl e' ↦
                rw (hit, e, e')
                  (rw (sym ((text_eq_iff t.name name).0 e')) (find-store_same t.name t' old))
            | inr e' ↦
                rw (hit, e, e')
                  (find-store_other t.name name t' old e'
                    ∙ ap (λ x. find name (or_empty (find x ss.schemas))) k)
          ]
      | inr e ↦ rw (find-store_other schema_name key (store t.name t' old) ss.schemas e, e) refl
    ]
