-- ===== src/Api/Patch.antt =====
-- The WHERE clause of a PATCH, which is built without its table.
use rest_trans.Prelude.{
  ℕ, ◌≡◌, ◌≢◌, refl, true, false, List, [], ◌∷◌, ok, Holds, Holds-bind, Holds-any, Holds-eq,
}
use rest_trans.Query.Params.{Params, FtsFilter}
use rest_trans.Query.Builder.Where.{
  Builder, Cond, no_conds, filter_conditions, logical_conditions, build_fts_condition,
  fts_conditions, build_where,
}
use rest_trans.Api.{build_where_from_params}

-- Where a query has a search, the WHERE clause of a PATCH is never built: the source reads a nil
-- table's language there.
build_where_from_params-nil :
    (p : Params) (idx : ℕ) (f : FtsFilter) (fs : List FtsFilter) (c : Cond)
    → p.fts_filters ≡ f ∷ fs
    → build_where_from_params p idx ≢ ok c
unfolding build_where_from_params build_where fts_conditions build_fts_condition
build_where_from_params-nil p idx f fs c h e =
    let lost : Holds (λ (c : Cond). true ≡ false) (build_where_from_params p idx) = rw h (
      Holds-bind (λ cs. Unit) (λ c. true ≡ false) (filter_conditions p.filters (no_conds idx)) _
        (Holds-any (filter_conditions p.filters (no_conds idx)))
        (λ cs u.
          Holds-bind (λ cs'. Unit) (λ c. true ≡ false) (logical_conditions p.logicals cs) _
            (Holds-any (logical_conditions p.logicals cs)) (λ cs' u'. tt))) in
    let no = Holds-eq (λ (c : Cond). true ≡ false) (build_where_from_params p idx) e lost in cc

-- Where it has none, the clause is the one that any builder of these parameters gives.
build_where_from_params-same :
    (b : Builder) (idx : ℕ)
    → b.params.fts_filters ≡ []
    → build_where_from_params b.params idx ≡ build_where b idx
unfolding build_where_from_params build_where fts_conditions
build_where_from_params-same b idx h = rw h refl
