-- ===== src/Api/Routes.antt =====
-- The four methods that write, as internal/api/router.go registers their handlers.
pub mod Sent
pub mod Guarded
use rest_trans.Prelude.{List, [], ◌∷◌}
use rest_trans.Schema.{SchemaStore}
use rest_trans.Transaction.Types.{Row}
use rest_trans.Query.Parse.{Pairs}
use rest_trans.Response.{Reply}
use rest_trans.Api.Types.{Body, array, object, Request, Database, Checked, Prepared}
use rest_trans.Api.Post.{prepare_post, handle_post}
use rest_trans.Api.Put.{prepare_put, statement_of, handle_put}
use rest_trans.Api.Writes.{prepare_patch, prepare_delete, handle_patch, handle_delete}

pub data Method : Type 0 where
  post put patch delete : Method

-- The row whose keys are the columns that a request writes.
abbrev pub written_row : Method → Body → Row
written_row post (array (row ∷ rows)) = row
written_row delete body = []
written_row m (object row) = row
written_row m body = []

module _ (visit : Pairs → Pairs) where
  -- The statement that a handler sends.
  unfoldable pub prepare_write : Method → SchemaStore → Request → Checked Prepared
  unfolding prepare_post prepare_put prepare_patch prepare_delete
  prepare_write post store r = prepare_post store r
  prepare_write put store r = statement_of (prepare_put store r)
  prepare_write patch store r = prepare_patch visit store r
  prepare_write delete store r = prepare_delete visit store r

  unfoldable pub handle_write :
      {S : Type 0} → Method → Database S → SchemaStore → Request → S → Reply × S
  unfolding handle_post handle_put handle_patch handle_delete
  handle_write post db store r s = handle_post db store r s
  handle_write put db store r s = handle_put db store r s
  handle_write patch db store r s = handle_patch visit db store r s
  handle_write delete db store r s = handle_delete visit db store r s
