-- ===== src/OpenApi/Operations.antt =====
-- The operations of internal/openapi/openapi.go.
use rest_trans.Prelude.{
  true, false, ◌&&◌, not, Option, none, some, List, [], ◌∷◌, ◌++◌, map, Text, codes, text_eq,
  to_lower, to_upper, is_empty, if◌then◌else◌,
}
use rest_trans.Schema.{Column, Table, store, ordered_columns}
use rest_trans.Schema.Functions.{FuncArg, Function}
use rest_trans.Query.Builder.Write.{listed}
use rest_trans.OpenApi.Types.{
  Schema, schema, Properties, end, property, no_items, items, none_of, or_else, type_schema,
  Parameter, RequestBody, Operation, ColumnSchema, TableSchema,
}

-- `pgTypeToOpenAPI`; its other cases all give `string`.
unfoldable pub pg_type_to_open_api : Text → Text
unfolding to_lower text_eq
pg_type_to_open_api pg_type =
    let t = to_lower pg_type in
    if listed t (
      codes "integer"
      ∷ codes "bigint"
      ∷ codes "smallint"
      ∷ codes "serial"
      ∷ codes "bigserial"
      ∷ codes "int4"
      ∷ codes "int8"
      ∷ codes "int2"
      ∷ [])
    then codes "integer"
    else if listed t (
        codes "real"
        ∷ codes "double precision"
        ∷ codes "numeric"
        ∷ codes "decimal"
        ∷ codes "float4"
        ∷ codes "float8"
        ∷ [])
    then codes "number"
    else if listed t (codes "boolean" ∷ codes "bool" ∷ [])
    then codes "boolean"
    else if listed t (codes "json" ∷ codes "jsonb" ∷ [])
    then codes "object"
    else if text_eq t (codes "array")
    then codes "array"
    else codes "string"

-- `capitalize`, of a name whose first character is one byte.
unfoldable pub capitalize : Text → Text
unfolding to_upper
capitalize [] = []
capitalize (c ∷ s) = to_upper (c ∷ []) ++ s

abbrev schema_param : Text → Parameter
schema_param s = record {
  name = codes "schema";
  place = codes "path";
  required = true;
  schema = schema (codes "string") [] end no_items false s [] none_of;
}

abbrev query_param : Text → Text → Parameter
query_param name t = record {
  name = name;
  place = codes "query";
  required = false;
  schema = type_schema t;
}

abbrev column_param : Column → Parameter
column_param c = query_param c.name (pg_type_to_open_api c.data_type)

-- `filterParams`.
abbrev pub filter_params : Table → List Parameter
filter_params t = map column_param (ordered_columns t)

abbrev pub pagination_params : List Parameter
pagination_params =
    query_param (codes "limit") (codes "integer")
    ∷ query_param (codes "offset") (codes "integer")
    ∷ []

abbrev pub count_param : Parameter
count_param = query_param (codes "count") (codes "string")

-- The parts in which the operations on a table differ.
abbrev pub table_op :
    Text
    → Text
    → Text
    → Table
    → List Parameter
    → Option RequestBody
    → List (Text × Text)
    → Operation
table_op summary description id t parameters body responses = record {
  summary = summary ++ t.name;
  description = description ++ t.name;
  operation_id = id ++ capitalize t.name;
  tags = t.name ∷ [];
  parameters = parameters;
  request_body = body;
  responses = responses;
}

abbrev reference : Table → Schema
reference t = schema [] (codes "#/components/schemas/" ++ t.name) end no_items false [] [] none_of

abbrev body_of : Schema → Option RequestBody
body_of s = some (record { required = true; json = s })

unfoldable pub build_get_op : Table → Text → Operation
unfolding ordered_columns capitalize pg_type_to_open_api
build_get_op t s =
    table_op (codes "List ") (codes "Retrieve all rows from ") (codes "list") t
      (schema_param s
        ∷ (filter_params t
            ++ (query_param (codes "select") (codes "string")
                ∷ query_param (codes "order") (codes "string")
                ∷ (pagination_params ++ count_param ∷ []))))
      none ((codes "200", codes "Successful response") ∷ [])

unfoldable pub build_head_op : Table → Text → Operation
unfolding ordered_columns capitalize pg_type_to_open_api
build_head_op t s =
    table_op (codes "Head ") (codes "Retrieve headers for ") (codes "head") t
      (schema_param s ∷ (filter_params t ++ count_param ∷ [])) none
      ((codes "200", codes "Successful response") ∷ [])

unfoldable pub build_post_op : Table → Text → Operation
unfolding capitalize
build_post_op t s =
    table_op (codes "Insert into ") (codes "Insert one or more rows into ") (codes "insert") t
      (schema_param s ∷ [])
      (body_of (
        schema [] [] end no_items false [] [] (
          or_else (reference t) (
            or_else (schema (codes "array") [] end (items (reference t)) false [] [] none_of)
              none_of))))
      ((codes "201", codes "Created") ∷ [])

unfoldable pub build_put_op : Table → Text → Operation
unfolding capitalize
build_put_op t s =
    table_op (codes "Upsert ") (codes "Insert or update a single row in ") (codes "upsert") t
      (schema_param s ∷ []) (body_of (reference t))
      ((codes "200", codes "Upserted") ∷ (codes "201", codes "Created") ∷ [])

unfoldable pub build_patch_op : Table → Text → Operation
unfolding ordered_columns capitalize pg_type_to_open_api
build_patch_op t s =
    table_op (codes "Update ") (codes "Update rows in ") (codes "update") t
      (schema_param s ∷ filter_params t) (body_of (type_schema (codes "object")))
      ((codes "204", codes "No Content") ∷ [])

unfoldable pub build_delete_op : Table → Text → Operation
unfolding ordered_columns capitalize pg_type_to_open_api
build_delete_op t s =
    table_op (codes "Delete from ") (codes "Delete rows from ") (codes "delete") t
      (schema_param s ∷ filter_params t) none ((codes "204", codes "No Content") ∷ [])

unfoldable pub build_options_op : Table → Text → Operation
unfolding capitalize
build_options_op t s =
    table_op (codes "Options for ") (codes "Retrieve metadata for ") (codes "options") t
      (schema_param s ∷ []) none ((codes "200", codes "Successful response") ∷ [])

abbrev property_of : FuncArg → Schema
property_of a =
    schema (pg_type_to_open_api a.arg_type) [] end no_items a.nullable a.default_value [] none_of

-- A write to the map of properties.
unfoldable pub set_property : Text → Schema → Properties → Properties
unfolding text_eq
set_property k s end = property k s end
set_property k s (property j old ps) =
    let rest = set_property k s ps in if text_eq j k then property j s ps else property j old rest

-- The loop over the arguments of buildRPCOp, and the names that it takes for required.
unfoldable pub set_properties : List FuncArg → Properties → Properties
unfolding set_property pg_type_to_open_api
set_properties [] ps = ps
set_properties (a ∷ arguments) ps =
    set_properties arguments (set_property a.name (property_of a) ps)

unfoldable pub required_args : List FuncArg → List Text
required_args [] = []
required_args (a ∷ arguments) =
    let rest = required_args arguments in if is_empty a.default_value then a.name ∷ rest else rest

-- `buildRPCOp`. The schema of the result is built and not used.
unfoldable pub build_rpc_op : Function → Text → Operation
unfolding set_properties required_args capitalize
build_rpc_op fn s = record {
  summary = codes "Call " ++ fn.name;
  description =
      codes "Execute stored procedure "
      ++ (fn.name ++ (codes " (language: " ++ (fn.language ++ codes ")")));
  operation_id = codes "rpc" ++ capitalize fn.name;
  tags = codes "RPC" ∷ [];
  parameters = schema_param s ∷ [];
  request_body = body_of (
      schema (codes "object") [] (set_properties fn.arguments end) no_items false []
        (required_args fn.arguments) none_of);
  responses = (codes "200", codes "Successful response") ∷ [];
}

abbrev column_schema : Column → ColumnSchema
column_schema c = record {
  data_type = pg_type_to_open_api c.data_type;
  nullable = c.is_nullable;
  default = c.default_value;
}

-- The loop of buildSchema.
unfoldable pub column_schemas : List Column → TableSchema → TableSchema
unfolding store pg_type_to_open_api
column_schemas [] ts = ts
column_schemas (c ∷ columns) ts = column_schemas columns (record {
  properties = store c.name (column_schema c) ts.properties;
  required =
      if not c.is_nullable && is_empty c.default_value
      then ts.required ++ c.name ∷ []
      else ts.required;
})

-- `buildSchema`.
unfoldable pub build_schema : Table → TableSchema
unfolding column_schemas ordered_columns
build_schema t = column_schemas (ordered_columns t) (record { properties = []; required = [] })
