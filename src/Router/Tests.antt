-- ===== src/Router/Tests.antt =====
-- Runs of internal/api/router.go.
use rest_trans.Prelude.{◌≡◌, ◌↔◌, refl, true, [], ◌∷◌, codes, text_eq}
use rest_trans.Schema.{add_table}
use rest_trans.Schema.Tests.{users, public}
use rest_trans.Config.Tests.{plain_config}
use rest_trans.Query.Builder.Write.{listed}
use rest_trans.Router.{pass, method_guard, allowed_methods}
use rest_trans.Router.Guard.{IsMethod, method_guard_iff}

offered_methods :
    allowed_methods
      (add_table public (codes "public") users)
      plain_config
      (codes "public")
      (codes "users")
    ≡ codes "OPTIONS" ∷ codes "GET" ∷ []
unfolding allowed_methods add_table
offered_methods = refl

patch-IsMethod : IsMethod (codes "PATCH")
unfolding text_eq
patch-IsMethod = refl

method_guard_iff_example :
    (method_guard public plain_config (codes "public") (codes "users") (codes "PATCH") ≡ pass) ↔ (
      listed (codes "PATCH") (allowed_methods public plain_config (codes "public") (codes "users"))
      ≡ true)
method_guard_iff_example =
    method_guard_iff public plain_config (codes "public") (codes "users") (codes "PATCH") refl
      patch-IsMethod
