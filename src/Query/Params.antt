-- ===== src/Query/Params.antt =====
-- The data types of internal/query/params.go.
use rest_trans.Prelude.{Bool, List, [], Text, codes, text_eq, ◌||◌}
use rest_trans.Prelude.Int.{ℤ, pos, negsuc, leb_ℤ, ltb_ℤ}
use rest_trans.Query.Operator.{Operator}

pub data FilterOp : Type 0 where
  logical_and logical_or logical_not : FilterOp

pub data OrderDirection : Type 0 where
  asc desc : OrderDirection

pub record OrderItem : Type 0 where
  pub column : Text
  pub direction : OrderDirection
  pub nulls : Text

pub record Filter : Type 0 where
  pub column : Text
  pub operator : Operator
  pub value : Text
  pub negate : Bool
  pub modifier : Text

-- A group of conditions, which may hold groups.
mutual
  pub data LogicalFilter : Type 0 where
    group : FilterOp → List Filter → Logicals → LogicalFilter

  pub data Logicals : Type 0 where
    nil : Logicals
    cons : LogicalFilter → Logicals → Logicals

pub record Range : Type 0 where
  pub limit : ℤ
  pub offset : ℤ

pub record Embed : Type 0 where
  pub table : Text
  pub select : List Text

pub record FtsFilter : Type 0 where
  pub column : Text
  pub search_term : Text
  pub negate : Bool

pub record Aggregate : Type 0 where
  pub func : Text
  pub col : Text
  pub alias : Text

-- `Prefer` is declared in the source and nothing sets it.
pub record Params : Type 0 where
  pub filters : List Filter
  pub logicals : Logicals
  pub fts_filters : List FtsFilter
  pub order : List OrderItem
  pub select : List Text
  pub embeds : List Embed
  pub aggregates : List Aggregate
  pub range : Range
  pub count : Text

abbrev pub no_params : Params
no_params = record {
  filters = [];
  logicals = nil;
  fts_filters = [];
  order = [];
  select = [];
  embeds = [];
  aggregates = [];
  range = record { limit = negsuc 0; offset = pos 0 };
  count = [];
}

-- `append` on a slice of groups.
unfoldable pub snoc : Logicals → LogicalFilter → Logicals
snoc nil l = cons l nil
snoc (cons x xs) l = cons x (snoc xs l)

-- `lf.Op = LogicalNot`.
abbrev pub negated : LogicalFilter → LogicalFilter
negated (group op fs ls) = group logical_not fs ls

unfoldable pub has_count : Params → Bool
unfolding text_eq
has_count p =
    text_eq p.count (codes "exact")
    || text_eq p.count (codes "planned")
    || text_eq p.count (codes "estimated")

unfoldable pub has_range : Params → Bool
has_range p = leb_ℤ (pos 0) p.range.limit || ltb_ℤ (pos 0) p.range.offset
