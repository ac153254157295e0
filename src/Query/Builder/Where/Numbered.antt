-- ===== src/Query/Builder/Where/Numbered.antt =====
-- `buildWhere` numbers its placeholders in the order of its arguments.
use mathlib.Core.List.{append-nil}
use rest_trans.Prelude.{
  ℕ, ◌+◌, Bool, true, false, Option, none, some, List, [], ◌∷◌, ◌≡◌, refl, ap, arith, Text, ok,
  Holds, Holds-bind,
}
use rest_trans.Sql.{Sql, placeholders}
use rest_trans.Sql.Numbering.{
  IsNumbered, IsNumbered-append, placeholders-append, all_placeholders, all_placeholders-append,
  placeholders-join_sql,
}
use rest_trans.Schema.{Table}
use rest_trans.Query.Operator.{Operator}
use rest_trans.Query.Params.{
  Filter, FilterOp, logical_not, LogicalFilter, group, Logicals, nil, cons, FtsFilter,
}
use rest_trans.Query.InValues.{parse_in_values}
use rest_trans.Query.Builder.Where.{
  Builder, Cond, Conds, no_conds, append_cond, is_condition, value_placeholders, advance,
  in_condition, plain_condition, condition_by, build_filter_condition, filter_conditions,
  close_conditions, close_group, build_logical_condition, logical_conditions, build_fts_condition,
  fts_conditions, build_where, not_around, operator_sql,
}

abbrev pub CondNumbered : ℕ → Cond → Type 0
CondNumbered first c = IsNumbered first (placeholders c.sql) c.args c.next

abbrev CondsNumbered : ℕ → Conds → Type 0
CondsNumbered first cs = IsNumbered first (all_placeholders cs.conditions) cs.args cs.next

placeholders-not_around :
    (negate : Bool) (s : Sql) → placeholders (not_around negate s) ≡ placeholders s
placeholders-not_around true s = simp (placeholders-append, append-nil)
placeholders-not_around false s = refl

value_placeholders-IsNumbered :
    (idx : ℕ) (vs : List Text)
    → IsNumbered idx (all_placeholders (value_placeholders idx vs)) vs (advance idx vs)
unfolding value_placeholders
value_placeholders-IsNumbered idx [] = record { numbers_eq = refl; next_eq = omega arith }
value_placeholders-IsNumbered idx (v ∷ vs) =
    let ih = value_placeholders-IsNumbered (idx + 1) vs in
    record { numbers_eq = ap (◌∷◌ idx) ih.numbers_eq; next_eq = omega (arith, ih.next_eq) }

is_condition-Numbered : (f : Filter) (idx : ℕ) → Holds (CondNumbered idx) (is_condition f idx)
unfolding is_condition
is_condition-Numbered f idx = ground arith

in_condition-Numbered : (f : Filter) (idx : ℕ) → CondNumbered idx (in_condition f idx)
unfolding in_condition
in_condition-Numbered f idx =
    let vs = parse_in_values f.value in
    let each = value_placeholders-IsNumbered idx vs in
    record {
      numbers_eq =
          rw placeholders-not_around
            (simp (placeholders-append, placeholders-join_sql, append-nil) each.numbers_eq);
      next_eq = each.next_eq;
    }

operator_sql-placeholders : (f : Filter) → placeholders (operator_sql f) ≡ []
operator_sql-placeholders f = ground arith

plain_condition-Numbered : (f : Filter) (idx : ℕ) → CondNumbered idx (plain_condition f idx)
unfolding plain_condition
plain_condition-Numbered f idx = record {
  numbers_eq = rw placeholders-not_around (simp (placeholders-append, operator_sql-placeholders f));
  next_eq = refl;
}

condition_by-Numbered :
    (o : Operator) (f : Filter) (idx : ℕ) → Holds (CondNumbered idx) (condition_by o f idx)
unfolding condition_by
condition_by-Numbered Operator.is f idx = is_condition-Numbered f idx
condition_by-Numbered Operator.in_list f idx = in_condition-Numbered f idx
condition_by-Numbered _ f idx = plain_condition-Numbered f idx

-- One more condition.
append_cond-Numbered :
    (first : ℕ) (cs : Conds) (c : Cond)
    → CondsNumbered first cs
    → CondNumbered cs.next c
    → CondsNumbered first (append_cond cs c)
append_cond-Numbered first cs c p q =
    rw (all_placeholders-append, append-nil) (IsNumbered-append p q)

filter_conditions-Numbered :
    (fs : List Filter) (first : ℕ) (cs : Conds)
    → CondsNumbered first cs
    → Holds (CondsNumbered first) (filter_conditions fs cs)
unfolding filter_conditions build_filter_condition
filter_conditions-Numbered [] first cs h = h
filter_conditions-Numbered (f ∷ fs) first cs h =
    Holds-bind (CondNumbered cs.next) (CondsNumbered first) (condition_by f.operator f cs.next) _
      (condition_by-Numbered f.operator f cs.next)
      (λ c q.
        filter_conditions-Numbered fs first (append_cond cs c)
          (append_cond-Numbered first cs c h q))

placeholders-close :
    (op : FilterOp) (cs : List Sql) → placeholders (close_conditions op cs) ≡ all_placeholders cs
placeholders-close op [] = refl
placeholders-close logical_not (c ∷ cs) =
    simp (placeholders-append, placeholders-join_sql, append-nil)
placeholders-close _ (c ∷ cs) = simp (placeholders-append, placeholders-join_sql, append-nil)

close_group-Numbered :
    (op : FilterOp) (first : ℕ) (cs : Conds)
    → CondsNumbered first cs
    → CondNumbered first (close_group op cs)
unfolding close_group
close_group-Numbered op first cs h = record {
  numbers_eq = rw placeholders-close h.numbers_eq;
  next_eq = h.next_eq;
}

no_conds-Numbered : (idx : ℕ) → CondsNumbered idx (no_conds idx)
no_conds-Numbered idx = record { numbers_eq = refl; next_eq = omega arith }

mutual
  unfolding build_logical_condition

  build_logical-Numbered :
      (l : LogicalFilter) (idx : ℕ) → Holds (CondNumbered idx) (build_logical_condition l idx)
  build_logical-Numbered (group op fs ls) idx =
      Holds-bind (CondsNumbered idx) (CondNumbered idx) (filter_conditions fs (no_conds idx)) _
        (filter_conditions-Numbered fs idx (no_conds idx) (no_conds-Numbered idx))
        (λ cs h.
          Holds-bind (CondsNumbered idx) (CondNumbered idx) (logical_conditions ls cs) _
            (logical_conditions-Numbered ls idx cs h)
            (λ cs' h'. close_group-Numbered op idx cs' h'))

  logical_conditions-Numbered :
      (ls : Logicals) (first : ℕ) (cs : Conds)
      → CondsNumbered first cs
      → Holds (CondsNumbered first) (logical_conditions ls cs)
  logical_conditions-Numbered nil first cs h = h
  logical_conditions-Numbered (cons l ls) first cs h =
      Holds-bind (CondNumbered cs.next) (CondsNumbered first) (build_logical_condition l cs.next) _
        (build_logical-Numbered l cs.next)
        (λ c q.
          logical_conditions-Numbered ls first (append_cond cs c)
            (append_cond-Numbered first cs c h q))

build_fts-Numbered :
    (t : Option Table) (f : FtsFilter) (idx : ℕ)
    → Holds (CondNumbered idx) (build_fts_condition t f idx)
unfolding build_fts_condition
build_fts-Numbered none f idx = tt
build_fts-Numbered (some t) f idx = record {
  numbers_eq = rw placeholders-not_around;
  next_eq = refl;
}

fts_conditions-Numbered :
    (t : Option Table) (fs : List FtsFilter) (first : ℕ) (cs : Conds)
    → CondsNumbered first cs
    → Holds (CondsNumbered first) (fts_conditions t fs cs)
unfolding fts_conditions
fts_conditions-Numbered t [] first cs h = h
fts_conditions-Numbered t (f ∷ fs) first cs h =
    Holds-bind (CondNumbered cs.next) (CondsNumbered first) (build_fts_condition t f cs.next) _
      (build_fts-Numbered t f cs.next)
      (λ c q.
        fts_conditions-Numbered t fs first (append_cond cs c) (append_cond-Numbered first cs c h q))

pub build_where-Holds : (b : Builder) (idx : ℕ) → Holds (CondNumbered idx) (build_where b idx)
unfolding build_where
build_where-Holds b idx =
    let P = CondsNumbered idx in
    Holds-bind P (CondNumbered idx) (filter_conditions b.params.filters (no_conds idx)) _
      (filter_conditions-Numbered b.params.filters idx (no_conds idx) (no_conds-Numbered idx))
      (λ cs h.
        Holds-bind P (CondNumbered idx) (logical_conditions b.params.logicals cs) _
          (logical_conditions-Numbered b.params.logicals idx cs h)
          (λ cs' h'.
            Holds-bind P (CondNumbered idx) (fts_conditions b.table b.params.fts_filters cs') _
              (fts_conditions-Numbered b.table b.params.fts_filters idx cs' h')
              (λ all g. record {
                numbers_eq = rw placeholders-join_sql g.numbers_eq;
                next_eq = g.next_eq;
              })))

-- Whatever the filters, groups and searches, a WHERE clause that is built from number `idx` has
-- the placeholders `idx`, `idx + 1`, … in the order of the text, one for each argument in the
-- order of the arguments, and the number that is handed on is the first free one.
pub build_where-IsNumbered :
    (b : Builder) (idx : ℕ) {c : Cond}
    → build_where b idx ≡ ok c
    → IsNumbered idx (placeholders c.sql) c.args c.next
build_where-IsNumbered b idx h = rw h at (build_where-Holds b idx)
