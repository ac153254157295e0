-- ===== src/Notification/Hub/Sound.antt =====
-- What always holds of the hub, over every sequence of its calls.
use rest_trans.Prelude.{ℕ, ◌≡◌, refl, Bool, true, List, [], ◌∷◌, Text, ==_refl, arith, All}
use rest_trans.Notification.Hub.{
  Event, State, new_hub, set, members, subscribe, unsubscribe, broadcast,
}
use rest_trans.Notification.Hub.Broadcast.{listed}
use rest_trans.Notification.Hub.Subscribing.{IsOnlyIn, IsSound, subscribe-IsSound}
use rest_trans.Notification.Hub.Leaving.{unsubscribe-IsSound, quiet-IsSound, send_all-IsSound}

-- The calls of the hub as the program makes them, and a client that takes the first event that
-- waits for it. A stream unsubscribes from the channel that it has subscribed to, once it ends, and
-- so does a broadcast: the client is in no other.
pub data Step : State → State → Type 0 where
  subscribed : (channel : Text) (s : State) → Step s (subscribe channel s).1
  unsubscribed :
      (channel : Text) (n : ℕ) (s : State) → IsOnlyIn channel n s → Step s (unsubscribe channel n s)
  sent : (quits : ℕ → Bool) (e : Event) (s : State) → Step s (broadcast quits e s)
  taken :
      (n : ℕ) (e : Event) (es : List Event) (s : State)
      → (s.client n).waiting ≡ e ∷ es
      → Step s (record s { client = set n (record (s.client n) { waiting = es }) s.client })

pub data Reachable : State → Type 0 where
  empty : Reachable new_hub
  after : (s t : State) → Reachable s → Step s t → Reachable t

all_only :
    (channel : Text) (s : State) (ns : List ℕ)
    → IsSound s
    → ((n : ℕ) → listed n ns ≡ true → listed n (members channel s) ≡ true)
    → All (λ n. IsOnlyIn channel n s) ns
all_only channel s [] w h = tt
all_only channel s (n ∷ ns) w h = (
  w.single n channel (h n (rw (==_refl n) refl)),
  all_only channel s ns w (λ m l. h m (ground arith)),
)

Step-IsSound : (s t : State) → Step s t → IsSound s → IsSound t
unfolding broadcast
Step-IsSound _ _ (subscribed channel s) w = subscribe-IsSound channel s w
Step-IsSound _ _ (unsubscribed channel n s only) w = unsubscribe-IsSound channel n s only w
Step-IsSound _ _ (sent quits e s) w =
    send_all-IsSound quits e (members e.channel s) s
      (all_only e.channel s (members e.channel s) w (λ n l. l)) w
Step-IsSound _ _ (taken n e es s h) w =
    quiet-IsSound n (record (s.client n) { waiting = es }) s refl w

-- In every state of the hub that its calls and its clients reach, where each client is unsubscribed
-- from its own channel alone, a client that a subscription has made is in a channel just where it is
-- not closed, and then in one channel, and once: whoever is dropped, by a broadcast or by its own
-- end, is closed, and nobody else is.
pub Reachable-IsSound : (s : State) → Reachable s → IsSound s
unfolding members
Reachable-IsSound _ empty = record {
  distinct = λ channel. tt;
  below = λ channel. tt;
  single = λ n channel l. cc;
  subscribed = λ n h c. ground arith;
  unclosed = λ n channel l. cc;
}
Reachable-IsSound _ (after s t r step) = Step-IsSound s t step (Reachable-IsSound s r)
