-- ===== src/Rpc/Tests.antt =====
-- A run of internal/rpc/handler.go.
use rest_trans.Prelude.{◌≡◌, refl, false, [], ◌∷◌, codes}
use rest_trans.Sql.{placeholders, count_from, join_sql, render}
use rest_trans.Schema.{SchemaStore}
use rest_trans.Schema.Functions.{FuncArg}
use rest_trans.Transaction.Types.{number, null}
use rest_trans.Api.Types.{Request, object, passed}
use rest_trans.Api.Tests.{request_of}
use rest_trans.Rpc.{plain, call_placeholders, call_sql, Call, prepare_call}
use rest_trans.Rpc.Numbered.{prepare_call-count_from}

abbrev big : FuncArg
big = record { name = codes "n"; arg_type = codes "bigint"; nullable = false; default_value = [] }

abbrev label : FuncArg
label = record {
  name = codes "label";
  arg_type = codes "text";
  nullable = false;
  default_value = [];
}

abbrev with_function : SchemaStore
with_function = record {
  schemas = [];
  functions =
      (
        codes "shop",
        (
          codes "total",
          record {
            name = codes "total";
            schema_name = codes "shop";
            return_type = codes "bigint";
            arguments = big ∷ label ∷ [];
            language = codes "sql";
          },
        )
            ∷ [],
      )
      ∷ [];
  default_schema = codes "shop";
}

abbrev calling : Request
calling = record (request_of [] [] (object ((codes "n", number (codes "5")) ∷ []))) {
  table = codes "total";
}

abbrev call : Call
call = record {
  sql = call_sql (codes "shop.total") (big ∷ label ∷ []);
  args = plain (number (codes "5")) ∷ plain null ∷ [];
}

-- A bigint is cast to an int.
call_text : render call.sql ≡ codes "SELECT * FROM shop.total($1::int, $2::text)"
unfolding render call_placeholders join_sql
call_text = refl

call_passed : prepare_call with_function calling ≡ passed call
unfolding prepare_call
call_passed = refl

prepare_call-count_from_example : placeholders call.sql ≡ count_from 1 2
prepare_call-count_from_example = prepare_call-count_from with_function calling call_passed
