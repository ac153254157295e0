-- ===== src/Notification/Tests.antt =====
-- Runs of internal/notification.
use rest_trans.Prelude.{ℕ, ◌≡◌, refl, Bool, false, [], ◌∷◌, Text, codes, text_eq, if◌then◌else◌}
use rest_trans.Notification.Hub.{
  Event, State, new_hub, members, subscribe, unsubscribe, broadcast, client_count,
}
use rest_trans.Notification.Hub.Broadcast.{listed, AreDistinct, received, broadcast-client}
use rest_trans.Notification.Hub.Subscribing.{IsSound}
use rest_trans.Notification.Hub.Sound.{Step, Reachable, Reachable-IsSound}

abbrev users : Text
users = codes "rest_public_users"

abbrev event : Event
event = record { channel = users; payload = codes "{}" }

abbrev joined : State
joined = (subscribe users (subscribe users new_hub).1).1

abbrev never : ℕ → Bool
never n = false

hub_runs :
    (client_count joined ≡ 2)
    × ((broadcast never event joined).client 1 ≡ record { waiting = event ∷ []; closed = false })
    × (client_count (unsubscribe users 0 (unsubscribe users 1 joined)) ≡ 0)
unfolding subscribe unsubscribe broadcast text_eq
hub_runs = (refl, refl, refl)

joined-Reachable : Reachable joined
joined-Reachable =
    Reachable.after (subscribe users new_hub).1 joined
      (Reachable.after new_hub (subscribe users new_hub).1 Reachable.empty
        (Step.subscribed users new_hub))
      (Step.subscribed users (subscribe users new_hub).1)

abbrev parted : State
parted = unsubscribe users 0 joined

parted-Reachable : Reachable parted
unfolding members subscribe text_eq
parted-Reachable = Reachable.after joined parted joined-Reachable (
    Step.unsubscribed users 0 joined
      ((Reachable-IsSound joined joined-Reachable).single 0 users refl))

Reachable-IsSound_example : IsSound parted
Reachable-IsSound_example = Reachable-IsSound parted parted-Reachable

joined-AreDistinct : AreDistinct (members users joined)
joined-AreDistinct = (Reachable-IsSound joined joined-Reachable).distinct users

broadcast-client_example : (broadcast never event joined).client 1 ≡ (
    if listed 1 (members users joined)
    then received false event (joined.client 1)
    else joined.client 1)
broadcast-client_example = broadcast-client never event joined 1 joined-AreDistinct
