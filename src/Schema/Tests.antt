-- ===== src/Schema/Tests.antt =====
-- Runs of internal/schema/schema.go.
use rest_trans.Prelude.{◌≡◌, refl, true, false, [], ◌∷◌, some, codes}
use rest_trans.Schema.{Table, SchemaStore, new_store, is_method_allowed}

abbrev pub users : Table
users = record {
  name = codes "users";
  schema_name = [];
  columns = [];
  column_order = [];
  pk = codes "id";
  is_view = false;
  foreign_keys = [];
  unique_constraints = [];
  allowed_methods = some (codes "get" ∷ codes "POST" ∷ []);
  deny_methods = codes "Post" ∷ [];
  fts_language = [];
}

abbrev pub public : SchemaStore
public = new_store (codes "public")

deny_first :
    (is_method_allowed users (codes "GET") ≡ true)
    × (is_method_allowed users (codes "POST") ≡ false)
    × (is_method_allowed users (codes "PUT") ≡ false)
unfolding is_method_allowed
deny_first = (refl, refl, refl)
