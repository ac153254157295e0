-- ===== src/Introspect/Tests.antt =====
-- Runs of introspection on a catalogue of two tables.
use rest_trans.Prelude.{
  ◌≡◌, refl, true, false, some, none, [], ◌∷◌, ◌++◌, Text, codes, text_eq, if◌then◌else◌,
}
use rest_trans.Schema.{Table, get_table, qualified_name}
use rest_trans.Schema.Functions.{parse_func_args}
use rest_trans.Schema.Tests.{public}
use rest_trans.Introspect.{
  Fetched, query_failed, fetched, ColumnRow, Catalogue, introspect, Catalogue,
}
use rest_trans.Introspect.Comment.{parse_comment}
use rest_trans.Introspect.Sound.Rows.{AreSound, introspect-AreSound}
use rest_trans.Introspect.Watcher.{refresh}
use rest_trans.Introspect.Watcher.Reload.{get_table-refresh_failed, qualified_name-refresh}

comment_read :
    parse_comment (codes "people" ++ 10 ∷ codes " @allow get, head" ++ 10 ∷ codes "@deny put")
    ≡ record {
      allowed = codes "GET" ∷ codes "HEAD" ∷ [];
      denied = codes "PUT" ∷ [];
      fts_language = [];
    }
unfolding parse_comment
comment_read = refl

args_read :
    parse_func_args (codes "23 25") (codes "{n,}")
    ≡ record { name = codes "n"; arg_type = codes "integer"; nullable = false; default_value = [] }
      ∷ record { name = codes "p_1"; arg_type = codes "text"; nullable = false; default_value = [] }
      ∷ []
unfolding parse_func_args
args_read = refl

abbrev id_row : ColumnRow
id_row = record {
  table_name = codes "users";
  col_name = codes "id";
  data_type = codes "integer";
  is_nullable = codes "NO";
  default_val = [];
  ordinal_pos = 1;
  char_max_len = 0;
}

abbrev nothing : {R : Type 0} → Text → Fetched R
nothing s = fetched [] false

-- The schema `lost` cannot be read.
abbrev small : Catalogue
small = record {
  columns =
      λ s. if text_eq s (codes "lost") then query_failed else fetched (some id_row ∷ []) false;
  view_columns = nothing;
  primary_keys = λ s. fetched (some (codes "users", codes "id") ∷ []) false;
  foreign_keys = nothing;
  unique_constraints = nothing;
  comments = nothing;
  functions = nothing;
}

abbrev found : Table
found = record {
  name = codes "users";
  schema_name = [];
  columns =
      (
        codes "id",
        record {
          name = codes "id";
          data_type = codes "integer";
          is_nullable = false;
          is_pk = true;
          is_unique = false;
          default_value = [];
          ordinal_pos = 1;
          character_max_len = 0;
        },
      )
      ∷ [];
  column_order = codes "id" ∷ [];
  pk = codes "id";
  is_view = false;
  foreign_keys = [];
  unique_constraints = [];
  allowed_methods = none;
  deny_methods = [];
  fts_language = [];
}

read_small : introspect small (codes "app") ≡ some ((codes "users", found) ∷ [])
unfolding introspect text_eq
read_small = refl

lost_fails : introspect small (codes "lost") ≡ none
unfolding introspect text_eq
lost_fails = refl

introspect-AreSound_example : AreSound ((codes "users", found) ∷ [])
introspect-AreSound_example = introspect-AreSound small (codes "app") read_small

get_table-refresh_failed_example :
    get_table
      (refresh small (codes "app" ∷ codes "lost" ∷ []) false public).0
      (codes "lost")
      (codes "users")
    ≡ none
get_table-refresh_failed_example =
    get_table-refresh_failed small (codes "app" ∷ codes "lost" ∷ []) false public (codes "lost")
      (codes "users") refl lost_fails

users_found :
    get_table
      (refresh small (codes "app" ∷ codes "lost" ∷ []) false public).0
      (codes "app")
      (codes "users")
    ≡ some found
unfolding get_table refresh text_eq
users_found = refl

qualified_name-refresh_example : qualified_name found ≡ codes "users"
qualified_name-refresh_example =
    qualified_name-refresh small (codes "app" ∷ codes "lost" ∷ []) false public (codes "app")
      (codes "users") users_found
