-- ===== src/Query/Parse/Known.antt =====
-- Every condition that `Parse` accepts is on a column of the table.
pub mod Groups
use rest_trans.Prelude.{
  ℕ, zero, suc, ◌+◌, List, [], ◌∷◌, ◌≡◌, refl, Bool, true, false, Option, none, some, inl, inr,
  Bool-cases, arith, Text, codes, length, All, All-append, has_prefix, split_n, trim, trim_space,
  is_empty, drop, text_eq, Result, ok, Holds, Holds-bind, Holds-eq, Holds-if, ◌>>=◌,
}
use rest_trans.Prelude.Int.{ℤ, atoi}
use rest_trans.Query.Params.{
  Filter, FilterOp, logical_and, logical_or, LogicalFilter, group, Logicals, nil, cons, FtsFilter,
  Params, no_params, snoc, negated,
}
use rest_trans.Query.Scan.{split_logical_conditions}
use rest_trans.Query.Filters.{
  Columns, parse_filter_with_prefix, parse_filter, fts_at, parse_fts_filter, condition_of,
  parse_condition,
}
use rest_trans.Query.Logical.{
  Nested, nested_group, add_filter, add_group, SubParser, add_part, logical_part, logical_parts,
  parse_logical, parse_logical_filter,
}
use rest_trans.Query.Parse.{
  Pairs, set_limit, set_offset, apply_not, apply_pair, parse_pairs, parse, add_logical, add_fts,
  set_select, split_query, trim_question,
}
use rest_trans.Query.Order.{parse_order}
use rest_trans.Query.Parse
use rest_trans.Query.Parse.Known.Groups.{
  known, none_left, KnownFilter, KnownFts, KnownGroup, IsKnown, snoc-KnownGroups,
  negated-KnownGroup, parse_filter-Known, parse_fts-Known, logical_parts-Known,
}

module _ (columns : Columns) where
  parse_logical-Known :
      (fuel : ℕ) (op : FilterOp) (v : Text)
      → Holds (KnownGroup columns) (parse_logical fuel op v columns)
  unfolding parse_logical
  parse_logical-Known zero op v = tt
  parse_logical-Known (suc fuel) op v =
      logical_parts-Known columns _ (λ o t. parse_logical-Known fuel o t)
        (split_logical_conditions (trim (codes "()") v)) (group op [] nil) (known tt none_left)

  parse_group-Known :
      (op : FilterOp) (v : Text) → Holds (KnownGroup columns) (parse_logical_filter op v columns)
  unfolding parse_logical_filter
  parse_group-Known op v = parse_logical-Known (length v + 1) op v

  module _ (p : Params) (h : IsKnown columns p) where
    with_filter-Known :
        (f : Filter) → KnownFilter columns f → IsKnown columns (Parse.add_filter p f)
    with_filter-Known f e = record {
      filters = All-append (KnownFilter columns) p.filters (f ∷ []) h.filters (e, tt);
      logicals = h.logicals;
      fts_filters = h.fts_filters;
    }

    with_group-Known :
        (l : LogicalFilter) → KnownGroup columns l → IsKnown columns (add_logical p l)
    with_group-Known l k = record {
      filters = h.filters;
      logicals = snoc-KnownGroups columns h.logicals k;
      fts_filters = h.fts_filters;
    }

    with_fts-Known : (f : FtsFilter) → KnownFts columns f → IsKnown columns (add_fts p f)
    with_fts-Known f e = record {
      filters = h.filters;
      logicals = h.logicals;
      fts_filters = All-append (KnownFts columns) p.fts_filters (f ∷ []) h.fts_filters (e, tt);
    }

    kept-Known :
        (q : Params)
        → q.filters ≡ p.filters
        → q.logicals ≡ p.logicals
        → q.fts_filters ≡ p.fts_filters
        → IsKnown columns q
    kept-Known q a b c = record {
      filters = rw a h.filters;
      logicals = rw b h.logicals;
      fts_filters = rw c h.fts_filters;
    }

    limit-Known : (v : Text) (o : Option ℤ) → Holds (IsKnown columns) (set_limit p v o)
    limit-Known v none = tt
    limit-Known v (some n) =
        kept-Known (record p { range = record p.range { limit = n } }) refl refl refl

    offset-Known : (v : Text) (o : Option ℤ) → Holds (IsKnown columns) (set_offset p v o)
    offset-Known v none = tt
    offset-Known v (some n) =
        kept-Known (record p { range = record p.range { offset = n } }) refl refl refl

    filter_step-Known :
        (m : Result Filter)
        → Holds (KnownFilter columns) m
        → Holds (IsKnown columns) (m >>= λ f. ok (Parse.add_filter p f))
    filter_step-Known m k =
        Holds-bind (KnownFilter columns) (IsKnown columns) m _ k with_filter-Known

    group_step-Known :
        (op : FilterOp) (v : Text)
        → Holds (IsKnown columns) (parse_logical_filter op v columns >>= λ l. ok (add_logical p l))
    group_step-Known op v =
        Holds-bind (KnownGroup columns) (IsKnown columns) (parse_logical_filter op v columns) _
          (parse_group-Known op v) with_group-Known

    negated_step-Known :
        (op : FilterOp) (v : Text)
        → Holds
            (IsKnown columns)
            (parse_logical_filter op v columns >>= λ l. ok (add_logical p (negated l)))
    negated_step-Known op v =
        Holds-bind (KnownGroup columns) (IsKnown columns) (parse_logical_filter op v columns) _
          (parse_group-Known op v)
          (λ l k. with_group-Known (negated l) (negated-KnownGroup columns k))

    fts_step-Known :
        (v : Text) → Holds (IsKnown columns) (parse_fts_filter v columns >>= λ f. ok (add_fts p f))
    fts_step-Known v =
        Holds-bind (KnownFts columns) (IsKnown columns) (parse_fts_filter v columns) _
          (parse_fts-Known columns v) with_fts-Known

    apply_not-Known : (subkey v : Text) → Holds (IsKnown columns) (apply_not columns p subkey v)
    unfolding apply_not
    apply_not-Known subkey v =
        Holds-if (IsKnown columns) (text_eq subkey (codes "or")) _ _
          (negated_step-Known logical_or v)
          (Holds-if (IsKnown columns) (text_eq subkey (codes "and")) _ _
            (negated_step-Known logical_and v)
            (filter_step-Known (parse_filter_with_prefix subkey v true columns)
              (parse_filter-Known columns subkey v true)))

    apply_pair-Known : (key v : Text) → Holds (IsKnown columns) (apply_pair columns p key v)
    unfolding apply_pair
    apply_pair-Known key v =
        let P = IsKnown columns in
        Holds-if P (text_eq key (codes "_select")) _ _ (kept-Known (set_select p v) refl refl refl)
          (Holds-if P (text_eq key (codes "_order")) _ _
            (kept-Known (record p { order = parse_order v }) refl refl refl)
            (Holds-if P (text_eq key (codes "_limit")) _ _ (limit-Known v (atoi v)) (
              Holds-if P (text_eq key (codes "_offset")) _ _ (offset-Known v (atoi v)) (
                Holds-if P (text_eq key (codes "_count")) _ _
                  (kept-Known (record p { count = v }) refl refl refl)
                  (Holds-if P (text_eq key (codes "_or")) _ _ (group_step-Known logical_or v) (
                    Holds-if P (text_eq key (codes "_and")) _ _ (group_step-Known logical_and v) (
                      Holds-if P (text_eq key (codes "_fts")) _ _ (fts_step-Known v) (
                        Holds-if P (has_prefix (codes "_not.") key) _ _
                          (apply_not-Known (drop 5 key) v)
                          (filter_step-Known (parse_filter key v columns)
                            (parse_filter-Known columns key v false))))))))))

  parse_pairs-Known :
      (pairs : Pairs) (p : Params)
      → IsKnown columns p
      → Holds (IsKnown columns) (parse_pairs columns p pairs)
  unfolding parse_pairs
  parse_pairs-Known [] p h = h
  parse_pairs-Known ((key, v) ∷ rest) p h =
      Holds-bind (IsKnown columns) (IsKnown columns) (apply_pair columns p key v) _
        (apply_pair-Known p h key v) (λ q k. parse_pairs-Known rest q k)

  no_params-Known : IsKnown columns no_params
  no_params-Known = record { filters = tt; logicals = none_left; fts_filters = tt }

-- Whatever the query string, and in whatever order its keys are visited: where `Parse` succeeds,
-- each of its filters and searches, and each filter of each group at any depth, is on a column of
-- the table. (Orders, selections and aggregates are not meant: `Parse` does not look at those.)
pub parse-IsKnown :
    (visit : Pairs → Pairs) (raw : Text) (columns : Columns) {p : Params}
    → parse visit raw columns ≡ ok p
    → IsKnown columns p
unfolding parse
parse-IsKnown visit raw columns h =
    Holds-eq (IsKnown columns) (parse visit raw columns) h (elim (Bool-cases (is_empty raw)) [
      | inl e ↦ rw e (no_params-Known columns)
      | inr e ↦ rw e (
          parse_pairs-Known columns (visit (split_query (trim_question raw))) no_params
            (no_params-Known columns))
    ])
