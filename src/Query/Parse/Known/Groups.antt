-- ===== src/Query/Parse/Known/Groups.antt =====
-- The conditions of a group that parses, at any depth, are on columns of the table.
use rest_trans.Prelude.{
  ℕ, List, [], ◌∷◌, ◌≡◌, Bool, true, false, Option, none, some, inl, inr, Bool-cases, arith, Text,
  codes, All, All-append, has_prefix, split_n, trim_space, is_empty, drop, Holds, Holds-bind,
}
use rest_trans.Query.Params.{
  Filter, FilterOp, LogicalFilter, group, Logicals, nil, cons, FtsFilter, Params, snoc, negated,
}
use rest_trans.Query.Filters.{
  Columns, parse_filter_with_prefix, fts_at, parse_fts_filter, condition_of, parse_condition,
}
use rest_trans.Query.Logical.{
  Nested, nested_group, add_filter, add_group, SubParser, add_part, logical_part, logical_parts,
}

module _ (columns : Columns) where
  abbrev pub KnownFilter : Filter → Type 0
  KnownFilter f = columns f.column ≡ true

  abbrev pub KnownFts : FtsFilter → Type 0
  KnownFts f = columns f.column ≡ true

  -- A group all of whose filters, at any depth, are on known columns.
  mutual
    pub data KnownGroup : LogicalFilter → Type 0 where
      known :
          {op : FilterOp} {fs : List Filter} {ls : Logicals}
          → All KnownFilter fs
          → KnownGroups ls
          → KnownGroup (group op fs ls)

    pub data KnownGroups : Logicals → Type 0 where
      none_left : KnownGroups nil
      one_more :
          {l : LogicalFilter} {ls : Logicals}
          → KnownGroup l
          → KnownGroups ls
          → KnownGroups (cons l ls)

  pub record IsKnown (p : Params) : Type 0 where
    pub filters : All KnownFilter p.filters
    pub logicals : KnownGroups p.logicals
    pub fts_filters : All KnownFts p.fts_filters

  pub snoc-KnownGroups :
      {ls : Logicals} {l : LogicalFilter} → KnownGroups ls → KnownGroup l → KnownGroups (snoc ls l)
  unfolding snoc
  snoc-KnownGroups none_left k = one_more k none_left
  snoc-KnownGroups (one_more h hs) k = one_more h (snoc-KnownGroups hs k)

  pub negated-KnownGroup : {l : LogicalFilter} → KnownGroup l → KnownGroup (negated l)
  negated-KnownGroup (known h k) = known h k

  add_filter-KnownGroup :
      (l : LogicalFilter) (f : Filter) → KnownGroup l → KnownFilter f → KnownGroup (add_filter l f)
  add_filter-KnownGroup (group op fs ls) f (known h k) e =
      known (All-append KnownFilter fs (f ∷ []) h (e, tt)) k

  add_group-KnownGroup :
      (l m : LogicalFilter) → KnownGroup l → KnownGroup m → KnownGroup (add_group l m)
  add_group-KnownGroup (group op fs ls) m (known h k) g = known h (snoc-KnownGroups k g)

  pub parse_filter-Known :
      (key value : Text) (negate : Bool)
      → Holds KnownFilter (parse_filter_with_prefix key value negate columns)
  unfolding parse_filter_with_prefix
  parse_filter-Known key value negate = ground arith

  fts_at-Known :
      (value : Text) (negate : Bool) (o : Option ℕ) → Holds KnownFts (fts_at value negate columns o)
  fts_at-Known value negate o = ground arith

  pub parse_fts-Known : (value : Text) → Holds KnownFts (parse_fts_filter value columns)
  unfolding parse_fts_filter
  parse_fts-Known value = ground arith

  condition_of-Known :
      (cond : Text) (negate : Bool) (parts : List Text)
      → Holds KnownFilter (condition_of cond negate columns parts)
  condition_of-Known cond negate [] = tt
  condition_of-Known cond negate (col ∷ []) = tt
  condition_of-Known cond negate (col ∷ val ∷ []) = ground arith
  condition_of-Known cond negate (col ∷ op ∷ val ∷ rest) = ground arith

  parse_condition-Known : (cond : Text) → Holds KnownFilter (parse_condition cond columns)
  unfolding parse_condition
  parse_condition-Known cond = elim (Bool-cases (has_prefix (codes "not.") cond)) [
    | inl e ↦ rw e (condition_of-Known _ true (split_n b'.' 3 (drop 4 cond)))
    | inr e ↦ rw e (condition_of-Known cond false (split_n b'.' 3 cond))
  ]

module _ (columns : Columns) (f : SubParser)
    (sub : (op : FilterOp) (t : Text) → Holds (KnownGroup columns) (f op t)) where
  add_part-Known :
      (lf : LogicalFilter) (part : Text) (o : Option Nested)
      → KnownGroup columns lf
      → Holds (KnownGroup columns) (add_part f columns lf part o)
  unfolding add_part
  add_part-Known lf part none h =
      Holds-bind (KnownFilter columns) (KnownGroup columns) (parse_condition part columns) _
        (parse_condition-Known columns part) (λ c e. add_filter-KnownGroup columns lf c h e)
  add_part-Known lf part (some n) h =
      Holds-bind (KnownGroup columns) (KnownGroup columns) (f n.op n.inner) _ (sub n.op n.inner)
        (λ l k. add_group-KnownGroup columns lf (negated l) h (negated-KnownGroup columns k))

  logical_part-Known :
      (lf : LogicalFilter) (part : Text)
      → KnownGroup columns lf
      → Holds (KnownGroup columns) (logical_part f columns lf part)
  unfolding logical_part
  logical_part-Known lf part h = elim (Bool-cases (is_empty part)) [
    | inl e ↦ rw e h
    | inr e ↦ rw e (add_part-Known lf part (nested_group part) h)
  ]

  pub logical_parts-Known :
      (parts : List Text) (lf : LogicalFilter)
      → KnownGroup columns lf
      → Holds (KnownGroup columns) (logical_parts f columns lf parts)
  unfolding logical_parts
  logical_parts-Known [] lf h = h
  logical_parts-Known (p ∷ ps) lf h =
      Holds-bind (KnownGroup columns) (KnownGroup columns)
        (logical_part f columns lf (trim_space p)) _ (logical_part-Known lf (trim_space p) h)
        (λ l k. logical_parts-Known ps l k)
