-- ===== src/Notification/Channels/Tests.antt =====
-- Runs of the listener and of a stream.
use rest_trans.Prelude.{ℕ, ◌≡◌, refl, Bool, true, false, some, List, [], ◌∷◌, Text, codes}
use rest_trans.Notification.Hub.{
  Event, State, new_hub, subscribe, broadcast, unsubscribe, client_count,
}
use rest_trans.Notification.Channels.{
  build_channels, on_notify, open_stream, read_event, close_stream,
}
use rest_trans.Notification.Channels.Exact.{IsExact, build_channels-IsExact}

abbrev schemas : List Text
schemas = codes "shop" ∷ codes "shop_old" ∷ codes "none" ∷ []

abbrev tables : List (Text × List Text)
tables =
    (codes "shop", codes "users" ∷ codes "old_users" ∷ [])
    ∷ (codes "shop_old", codes "users" ∷ [])
    ∷ []

-- Two tables of two schemas may have one channel.
channels_shared :
    build_channels schemas tables ≡ codes "rest_shop_users" ∷ codes "rest_shop_old_users" ∷ []
unfolding build_channels
channels_shared = refl

build_channels-IsExact_example : IsExact tables schemas (build_channels schemas tables)
build_channels-IsExact_example = build_channels-IsExact schemas tables

abbrev event : Event
event = record { channel = codes "rest_public_users"; payload = codes "{}" }

abbrev opened : State
opened = (open_stream true [] [] (codes "users") new_hub).1

abbrev never : ℕ → Bool
never n = false

stream_runs :
    ((read_event 0 (codes "users") [] (on_notify never (some event) opened)).0
      ≡ codes "event: users\ndata: {}\n\n")
    × (client_count (close_stream [] (codes "users") 0 opened) ≡ 0)
    × (client_count (open_stream false [] [] (codes "users") new_hub).1 ≡ 0)
unfolding read_event on_notify open_stream close_stream subscribe unsubscribe broadcast
stream_runs = (refl, refl, refl)
