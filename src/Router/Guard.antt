-- ===== src/Router/Guard.antt =====
-- What the guard of methods lets pass.
use rest_trans.Prelude.{
  ◌≡◌, ◌↔◌, ◌⊎◌, refl, sym, true, false, ◌&&◌, Option, none, some, List, [], ◌∷◌, Text, codes,
  text_eq, is_empty, arith, Bool-cases, inl, inr,
}
use rest_trans.Schema.{Table, SchemaStore, get_table}
use rest_trans.Config.{Config}
use rest_trans.Prelude.Strings.Lengths.{text_eq_iff}
use rest_trans.Query.Builder.Write.{listed}
use rest_trans.Router.{
  pass, method_guard, allowed_methods, offered, all_methods, is_offered, by_table,
}

-- One of the six methods that the service offers beside OPTIONS.
abbrev pub IsMethod : Text → Type 0
IsMethod m = listed m all_methods ≡ true

not_listed : listed (codes "OPTIONS") all_methods ≡ false
unfolding text_eq
not_listed = refl

pub not_options : (m : Text) → IsMethod m → text_eq m (codes "OPTIONS") ≡ false
not_options m h = elim (Bool-cases (text_eq m (codes "OPTIONS"))) [
  | inl e ↦
      let same = (text_eq_iff m (codes "OPTIONS")).0 e in
      let yes_listed : listed (codes "OPTIONS") all_methods ≡ true = rw (sym same) h in
      cc not_listed
  | inr e ↦ e
]

pub by_table_iff :
    (cfg : Config) (schema_name table m : Text) (t : Option Table)
    → text_eq m (codes "OPTIONS") ≡ false
    → (by_table cfg schema_name table m t ≡ pass) ↔ (is_offered cfg table m t ≡ true)
by_table_iff cfg schema_name table m none h = ground arith
by_table_iff cfg schema_name table m (some t) h = ground arith

listed-offered :
    (cfg : Config) (table m : Text) (t : Option Table) (ms : List Text)
    → listed m (offered cfg table t ms) ≡ (listed m ms && is_offered cfg table m t)
unfolding offered
listed-offered cfg table m t [] = refl
listed-offered cfg table m t (k ∷ ms) = elim (Bool-cases (text_eq m k)) [
  | inl e ↦
      let same = (text_eq_iff m k).0 e in
      let here : is_offered cfg table k t ≡ is_offered cfg table m t = rw same in
      ground (arith, listed-offered cfg table m t ms)
  | inr e ↦ ground (arith, listed-offered cfg table m t ms)
]

-- On a route with a table, the guard passes one of the six methods just where
-- `Access-Control-Allow-Methods` lists it for the table, known or not.
pub method_guard_iff :
    (store : SchemaStore) (cfg : Config) (schema_name table m : Text)
    → is_empty table ≡ false
    → IsMethod m
    → (method_guard store cfg schema_name table m ≡ pass)
      ↔ (listed m (allowed_methods store cfg schema_name table) ≡ true)
unfolding method_guard allowed_methods
method_guard_iff store cfg schema_name table m h k =
    let t = get_table store schema_name table in
    let other = not_options m k in
    rw (h, other, listed-offered cfg table m t all_methods, k)
      (by_table_iff cfg schema_name table m t other)

-- A known view is never written: whatever the configuration, the guard ends a request on it by 405 unless its
-- method is GET, HEAD or OPTIONS.
pub method_guard-view :
    (store : SchemaStore) (cfg : Config) (schema_name table m : Text) (t : Table)
    → is_empty table ≡ false
    → get_table store schema_name table ≡ some t
    → t.is_view ≡ true
    → method_guard store cfg schema_name table m ≡ pass
    → (m ≡ codes "GET") ⊎ (m ≡ codes "HEAD") ⊎ (m ≡ codes "OPTIONS")
unfolding method_guard
method_guard-view store cfg schema_name table m t h found view passed =
    let p : by_table cfg schema_name table m (some t) ≡ pass = rw (h, found) at passed in
    elim (Bool-cases (text_eq m (codes "GET"))) [
      | inl e ↦ inl ((text_eq_iff m (codes "GET")).0 e)
      | inr get ↦ elim (Bool-cases (text_eq m (codes "HEAD"))) [
        | inl e ↦ inr (inl ((text_eq_iff m (codes "HEAD")).0 e))
        | inr head ↦ elim (Bool-cases (text_eq m (codes "OPTIONS"))) [
          | inl e ↦ inr (inr ((text_eq_iff m (codes "OPTIONS")).0 e))
          | inr options ↦ cc (rw (view, get, head, options) at p)
        ]
      ]
    ]
