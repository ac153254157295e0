-- ===== src/Api/Routes/Sent.antt =====
-- What a handler that writes sends to the database.
use rest_trans.Prelude.{◌≡◌}
use rest_trans.Schema.{SchemaStore}
use rest_trans.Query.Parse.{Pairs}
use rest_trans.Api.Types.{Request, passed, Prepared}
use rest_trans.Api.Writes.Numbered.{IsBalanced, prepare_patch-IsBalanced, prepare_delete-IsBalanced}
use rest_trans.Api.Post.Numbered.{prepare_post-IsBalanced}
use rest_trans.Api.Put.Numbered.{prepare_put-IsBalanced}
use rest_trans.Api.Routes.{Method, post, put, patch, delete, prepare_write}

-- Whatever the method, a statement that is sent has one placeholder for each of its arguments, numbered from 1 in the order of the text.
pub prepare_write-IsBalanced :
    (visit : Pairs → Pairs) (m : Method) (store : SchemaStore) (r : Request) {p : Prepared}
    → prepare_write visit m store r ≡ passed p
    → IsBalanced p
unfolding prepare_write
prepare_write-IsBalanced visit post store r h = prepare_post-IsBalanced store r h
prepare_write-IsBalanced visit put store r h = prepare_put-IsBalanced store r h
prepare_write-IsBalanced visit patch store r h = prepare_patch-IsBalanced visit store r h
prepare_write-IsBalanced visit delete store r h = prepare_delete-IsBalanced visit store r h
