-- ===== src/OpenApi/Tests.antt =====
-- Runs of internal/openapi/openapi.go.
use rest_trans.Prelude.{◌≡◌, ◌↔◌, refl, true, some, codes, text_eq, to_lower}
use rest_trans.Schema.{find, is_some, add_table, get_table}
use rest_trans.Schema.Tests.{users, public}
use rest_trans.Config.Tests.{plain_config}
use rest_trans.Router.{pass, method_guard}
use rest_trans.Router.Guard.{IsMethod}
use rest_trans.OpenApi.{path_item}
use rest_trans.OpenApi.Operations.{pg_type_to_open_api}
use rest_trans.OpenApi.Guard.{path_item_iff}

number_type : pg_type_to_open_api (codes "Double Precision") ≡ codes "number"
unfolding pg_type_to_open_api
number_type = refl

delete-IsMethod : IsMethod (codes "DELETE")
unfolding text_eq
delete-IsMethod = refl

users_are_there :
    get_table (add_table public (codes "public") users) (codes "public") (codes "users")
    ≡ some (record users { schema_name = codes "public" })
unfolding get_table add_table
users_are_there = refl

path_item_iff_example :
    (is_some (
        find (to_lower (codes "DELETE")) (
          path_item plain_config
            (codes "public")
            (codes "users")
            (record users { schema_name = codes "public" })))
      ≡ true)
    ↔ (method_guard
          (add_table public (codes "public") users)
          plain_config
          (codes "public")
          (codes "users")
          (codes "DELETE")
        ≡ pass)
path_item_iff_example =
    path_item_iff (add_table public (codes "public") users) plain_config (codes "public")
      (codes "users") (codes "DELETE") (record users { schema_name = codes "public" }) refl
      users_are_there delete-IsMethod
