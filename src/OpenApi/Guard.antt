-- ===== src/OpenApi/Guard.antt =====
-- The document and the guard of methods agree.
use rest_trans.Prelude.{
  ◌≡◌, ◌↔◌, refl, sym, subst, Bool, true, false, ◌&&◌, Bool-cases, inl, inr, some, List, Text,
  codes, text_eq, to_lower, is_empty, arith, if◌then◌else◌,
}
use rest_trans.Prelude.Strings.Lengths.{text_eq_iff}
use rest_trans.Schema.{Table, SchemaStore, find, store, is_some, get_table}
use rest_trans.Schema.Lookup.{find-store_same, find-store_other}
use rest_trans.Config.{Config}
use rest_trans.Router.{pass, method_guard, is_offered}
use rest_trans.Router.Guard.{IsMethod, not_options, by_table_iff}
use rest_trans.OpenApi.Types.{Operation, PathItem}
use rest_trans.OpenApi.{put_if, path_item}

find-store_lem :
    {V : Type 0} (k j : Text) (v : V) (m : List (Text × V))
    → find k (store j v m) ≡ (if text_eq j k then some v else find k m)
find-store_lem k j v m = elim (Bool-cases (text_eq j k)) [
  | inl e ↦
      rw e
        (subst (λ i. find i (store j v m) ≡ some v) ((text_eq_iff j k).0 e) (find-store_same j v m))
  | inr e ↦ rw e (find-store_other j k v m e)
]

find-put_if :
    (k : Text) (b : Bool) (j : Text) (op : Operation) (m : PathItem)
    → find k (put_if b j op m) ≡ (if b && text_eq j k then some op else find k m)
find-put_if k true j op m = find-store_lem k j op m
find-put_if k false j op m = refl

-- What holds of the six methods holds of every method.
IsMethod_elim :
    (P : Text → Type 0)
    → P (codes "GET")
    → P (codes "HEAD")
    → P (codes "POST")
    → P (codes "PUT")
    → P (codes "PATCH")
    → P (codes "DELETE")
    → (m : Text) → IsMethod m
    → P m
IsMethod_elim P p0 p1 p2 p3 p4 p5 m h = elim (Bool-cases (text_eq m (codes "GET"))) [
  | inl e ↦ subst P (sym ((text_eq_iff m (codes "GET")).0 e)) p0
  | inr e0 ↦ elim (Bool-cases (text_eq m (codes "HEAD"))) [
    | inl e ↦ subst P (sym ((text_eq_iff m (codes "HEAD")).0 e)) p1
    | inr e1 ↦ elim (Bool-cases (text_eq m (codes "POST"))) [
      | inl e ↦ subst P (sym ((text_eq_iff m (codes "POST")).0 e)) p2
      | inr e2 ↦ elim (Bool-cases (text_eq m (codes "PUT"))) [
        | inl e ↦ subst P (sym ((text_eq_iff m (codes "PUT")).0 e)) p3
        | inr e3 ↦ elim (Bool-cases (text_eq m (codes "PATCH"))) [
          | inl e ↦ subst P (sym ((text_eq_iff m (codes "PATCH")).0 e)) p4
          | inr e4 ↦ elim (Bool-cases (text_eq m (codes "DELETE"))) [
            | inl e ↦ subst P (sym ((text_eq_iff m (codes "DELETE")).0 e)) p5
            | inr e5 ↦ cc (rw (e0, e1, e2, e3, e4, e5) at h)
          ]
        ]
      ]
    ]
  ]
]

module _ (cfg : Config) (s name : Text) (t : Table) where
  abbrev IsDocumented : Text → Text → Type 0
  IsDocumented key m = is_some (find key (path_item cfg s name t)) ≡ is_offered cfg name m (some t)

  IsDocumented-get : IsDocumented (codes "get") (codes "GET")
  unfolding path_item text_eq find
  IsDocumented-get = simp (find-store_lem, find-put_if) (ground arith)

  IsDocumented-head : IsDocumented (codes "head") (codes "HEAD")
  unfolding path_item text_eq find
  IsDocumented-head = simp (find-store_lem, find-put_if) (ground arith)

  IsDocumented-post : IsDocumented (codes "post") (codes "POST")
  unfolding path_item text_eq find
  IsDocumented-post = simp (find-store_lem, find-put_if) (ground arith)

  IsDocumented-put : IsDocumented (codes "put") (codes "PUT")
  unfolding path_item text_eq find
  IsDocumented-put = simp (find-store_lem, find-put_if) (ground arith)

  IsDocumented-patch : IsDocumented (codes "patch") (codes "PATCH")
  unfolding path_item text_eq find
  IsDocumented-patch = simp (find-store_lem, find-put_if) (ground arith)

  IsDocumented-delete : IsDocumented (codes "delete") (codes "DELETE")
  unfolding path_item text_eq find
  IsDocumented-delete = simp (find-store_lem, find-put_if) (ground arith)

  documented_lem : (m : Text) → IsMethod m → IsDocumented (to_lower m) m
  unfolding to_lower
  documented_lem =
      IsMethod_elim (λ m. IsDocumented (to_lower m) m) IsDocumented-get IsDocumented-head
        IsDocumented-post IsDocumented-put IsDocumented-patch IsDocumented-delete

-- Of the six methods, the path of a known table documents just those that the guard passes.
pub path_item_iff :
    (ss : SchemaStore) (cfg : Config) (s name m : Text) (t : Table)
    → is_empty name ≡ false
    → get_table ss s name ≡ some t
    → IsMethod m
    → (is_some (find (to_lower m) (path_item cfg s name t)) ≡ true)
      ↔ (method_guard ss cfg s name m ≡ pass)
unfolding method_guard
path_item_iff ss cfg s name m t h found k =
    let (there, back) = by_table_iff cfg s name m (some t) (not_options m k) in
    rw (documented_lem cfg s name t m k, h, found) (back, there)
