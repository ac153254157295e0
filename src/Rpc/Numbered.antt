-- ===== src/Rpc/Numbered.antt =====
-- The statement of a call.
use rest_trans.Prelude.{ℕ, ◌+◌, List, [], ◌∷◌, ◌≡◌, refl, ap, subst, arith, length}
use mathlib.Core.List.{append-nil}
use rest_trans.Sql.{placeholders, count_from}
use rest_trans.Sql.Numbering.{placeholders-append, all_placeholders, placeholders-join_sql}
use rest_trans.Schema.{SchemaStore, get_function}
use rest_trans.Schema.Functions.{FuncArg}
use rest_trans.Transaction.Types.{Row}
use rest_trans.Api.Types.{Request, passed}
use rest_trans.Api.Writes.Numbered.{>>=-eq-passed, passed_injective}
use rest_trans.Rpc.{
  call_args, call_placeholders, Call, prepare_call, known, named_args, schema_or_default,
}

length-call_args :
    (arguments : List FuncArg) (row : Row) → length (call_args arguments row) ≡ length arguments
unfolding call_args
length-call_args [] row = refl
length-call_args (a ∷ arguments) row = omega (arith, length-call_args arguments row)

call_placeholders-count_from :
    (idx : ℕ) (arguments : List FuncArg)
    → all_placeholders (call_placeholders idx arguments) ≡ count_from idx (length arguments)
unfolding call_placeholders
call_placeholders-count_from idx [] = refl
call_placeholders-count_from idx (a ∷ arguments) =
    ap (◌∷◌ idx) (call_placeholders-count_from (idx + 1) arguments)

-- A call that is sent has one placeholder for each of its arguments, numbered from 1 in the order of the text.
pub prepare_call-count_from :
    (store : SchemaStore) (r : Request) {c : Call}
    → prepare_call store r ≡ passed c
    → placeholders c.sql ≡ count_from 1 (length c.args)
unfolding prepare_call
prepare_call-count_from store r h =
    let (fn, _, h1) =
      >>=-eq-passed (known r.table (get_function store (schema_or_default store r) r.table)) _ h in
    let (row, _, e) = >>=-eq-passed (named_args r.body) _ h1 in
    subst (λ (c : Call). placeholders c.sql ≡ count_from 1 (length c.args)) (passed_injective e)
      (rw length-call_args (
        simp (placeholders-append, placeholders-join_sql, append-nil)
          (call_placeholders-count_from 1 fn.arguments)))
