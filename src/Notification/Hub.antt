-- ===== src/Notification/Hub.antt =====
-- internal/notification/hub.go. A client is a pointer: its number, under which its two channels
-- stand in the state. A method runs as one step.
pub mod Broadcast
pub mod Leaving
pub mod Membership
pub mod Sound
pub mod Subscribing
use rest_trans.Prelude.{
  ℕ, ◌+◌, Bool, true, false, ◌&&◌, ◌||◌, not, Option, none, some, List, [], ◌∷◌, ◌++◌, Text,
  text_eq, ltb, ◌==◌, length, if◌then◌else◌,
}
use rest_trans.Schema.{find, store}

pub record Event : Type 0 where
  pub channel : Text
  pub payload : Text

-- What waits in `C`, and whether `quit` is closed.
pub record Client : Type 0 where
  pub waiting : List Event
  pub closed : Bool

-- The hub's map, the clients, and the number of the next one.
pub record State : Type 0 where
  pub clients : List (Text × List ℕ)
  pub client : ℕ → Client
  pub next : ℕ

-- The capacity of `C`.
abbrev pub capacity : ℕ
capacity = 64

abbrev pub new_client : Client
new_client = record { waiting = []; closed = false }

-- `NewHub`.
abbrev pub new_hub : State
new_hub = record { clients = []; client = λ n. new_client; next = 0 }

abbrev pub set : ℕ → Client → (ℕ → Client) → ℕ → Client
set n c cs m = if m == n then c else cs m

-- `Client.Close`, which may be called once more.
abbrev pub close : Client → Client
close c = record c { closed = true }

abbrev pub or_none : Option (List ℕ) → List ℕ
or_none none = []
or_none (some ns) = ns

unfoldable pub members : Text → State → List ℕ
unfolding find
members channel s = or_none (find channel s.clients)

-- `Hub.Subscribe`.
unfoldable pub subscribe : Text → State → ℕ × State
unfolding members store
subscribe channel s = (
  s.next,
  record {
    clients = store channel (s.next ∷ members channel s) s.clients;
    client = set s.next new_client s.client;
    next = s.next + 1;
  },
)

-- `delete` on a set of clients, and on the map.
unfoldable pub without : ℕ → List ℕ → List ℕ
without n [] = []
without n (m ∷ ms) = let rest = without n ms in if m == n then rest else m ∷ rest

unfoldable pub without_channel : Text → List (Text × List ℕ) → List (Text × List ℕ)
unfolding text_eq
without_channel k [] = []
without_channel k ((j, ns) ∷ m) =
    let rest = without_channel k m in if text_eq j k then rest else (j, ns) ∷ rest

abbrev pub put_back : Text → List ℕ → List (Text × List ℕ) → List (Text × List ℕ)
put_back channel [] m = without_channel channel m
put_back channel (n ∷ ns) m = store channel (n ∷ ns) m

abbrev pub leave : Text → ℕ → Option (List ℕ) → List (Text × List ℕ) → List (Text × List ℕ)
leave channel n none m = m
leave channel n (some ns) m = put_back channel (without n ns) m

-- `Hub.Unsubscribe`.
unfoldable pub unsubscribe : Text → ℕ → State → State
unfolding find store without without_channel
unsubscribe channel n s = record s {
  clients = leave channel n (find channel s.clients) s.clients;
  client = set n (close (s.client n)) s.client;
}

-- Go's `select` takes any case that is ready, and the default where none is: `quits` is its choice
-- where both are, a full channel being never ready.
abbrev pub takes : Bool → Client → Bool
takes quits c = ltb (length c.waiting) capacity && not (c.closed && quits)

abbrev pub hand : Event → Client → Client
hand e c = record c { waiting = c.waiting ++ e ∷ [] }

unfoldable pub send : (ℕ → Bool) → Event → ℕ → State → State
unfolding unsubscribe
send quits e n s =
    if takes (quits n) (s.client n)
    then record s { client = set n (hand e (s.client n)) s.client }
    else unsubscribe e.channel n s

-- The loop over the clients.
unfoldable pub send_all : (ℕ → Bool) → Event → List ℕ → State → State
unfolding send
send_all quits e [] s = s
send_all quits e (n ∷ ns) s = send_all quits e ns (send quits e n s)

-- `Hub.Broadcast`.
unfoldable pub broadcast : (ℕ → Bool) → Event → State → State
unfolding members send_all
broadcast quits e s = send_all quits e (members e.channel s) s

-- `Hub.ClientCount`.
abbrev pub count_all : List (Text × List ℕ) → ℕ
count_all [] = 0
count_all ((k, ns) ∷ m) = length ns + count_all m

abbrev pub client_count : State → ℕ
client_count s = count_all s.clients
