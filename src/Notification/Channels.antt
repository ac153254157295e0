-- ===== src/Notification/Channels.antt =====
-- internal/notification/listener.go, which hands PostgreSQL's notifications to the hub, and
-- internal/api/sse.go, which streams a table's events to a client.
pub mod Exact
pub mod Grows
mod Tests
use rest_trans.Prelude.{
  ℕ, Bool, true, false, ◌||◌, Option, none, some, List, [], ◌∷◌, ◌++◌, Text, codes, text_eq,
  if◌then◌else◌,
}
use rest_trans.Schema.{find}
use rest_trans.Response.{Headers, set_header}
use rest_trans.Notification.Hub.{Event, Client, State, set, subscribe, unsubscribe, broadcast}

abbrev pub channel_of : Text → Text → Text
channel_of schema_name table = codes "rest_" ++ (schema_name ++ (codes "_" ++ table))

-- `seen`, which has just the channels that have been listed.
unfoldable pub seen : Text → List Text → Bool
unfolding text_eq
seen channel [] = false
seen channel (c ∷ channels) = text_eq channel c || seen channel channels

unfoldable pub add_channel : List Text → Text → List Text
unfolding seen
add_channel channels channel = if seen channel channels then channels else channels ++ channel ∷ []

unfoldable pub add_names : Text → List Text → List Text → List Text
unfolding add_channel
add_names schema_name [] channels = channels
add_names schema_name (table ∷ names) channels =
    add_names schema_name names (add_channel channels (channel_of schema_name table))

abbrev names_or_none : Option (List Text) → List Text
names_or_none none = []
names_or_none (some names) = names

-- A map's entry, or Go's nil slice.
unfoldable pub names_in : Text → List (Text × List Text) → List Text
unfolding find
names_in schema_name tables = names_or_none (find schema_name tables)

unfoldable pub add_schemas : List (Text × List Text) → List Text → List Text → List Text
unfolding add_names names_in
add_schemas tables [] channels = channels
add_schemas tables (s ∷ schemas) channels =
    add_schemas tables schemas (add_names s (names_in s tables) channels)

-- `Listener.buildChannels`.
unfoldable pub build_channels : List Text → List (Text × List Text) → List Text
unfolding add_schemas
build_channels schemas tables = add_schemas tables schemas []

-- What `listen` does with a notification of lib/pq, which is nil after a new connection.
unfoldable pub on_notify : (ℕ → Bool) → Option Event → State → State
unfolding broadcast
on_notify quits none s = s
on_notify quits (some e) s = broadcast quits e s

abbrev or_public : Text → Text
or_public [] = codes "public"
or_public (c ∷ t) = c ∷ t

-- The channel that `HandleSSE` subscribes to.
abbrev pub stream_channel : Text → Text → Text
stream_channel schema_name table = channel_of (or_public schema_name) table

abbrev pub stream_headers : Headers → Headers
stream_headers hs = set_header (codes "X-Accel-Buffering") (codes "no") (
    set_header (codes "Connection") (codes "keep-alive") (
      set_header (codes "Cache-Control") (codes "no-cache")
        (set_header (codes "Content-Type") (codes "text/event-stream") hs)))

abbrev pub greeting : Text → Text
greeting channel = codes "event: connected\ndata: {\"channel\":\"" ++ (channel ++ codes "\"}\n\n")

abbrev pub frame : Text → Event → Text
frame table e = codes "event: " ++ (table ++ (codes "\ndata: " ++ (e.payload ++ codes "\n\n")))

-- An answer of 500, or a stream that is open, as a client of the hub, with what has been written to
-- it.
pub data Stream : Type 0 where
  unsupported : Headers → Stream
  streaming : ℕ → Headers → Text → Stream

-- `HandleSSE` up to its loop; `flushes` says that the writer is a Flusher.
unfoldable pub open_stream : Bool → Headers → Text → Text → State → Stream × State
unfolding subscribe unsubscribe set_header
open_stream flushes hs schema_name table s =
    let channel = stream_channel schema_name table in
    let (n, s') = subscribe channel s in
    if flushes
    then (streaming n (stream_headers hs) (greeting channel), s')
    else (unsupported (stream_headers hs), unsubscribe channel n s')

abbrev read_by : ℕ → Text → Text → State → List Event → Text × State
read_by n table written s [] = (written, s)
read_by n table written s (e ∷ events) = (
  written ++ frame table e,
  record s { client = set n (record (s.client n) { waiting = events }) s.client },
)

-- A turn of the loop that receives an event, where one waits.
unfoldable pub read_event : ℕ → Text → Text → State → Text × State
read_event n table written s = read_by n table written s (s.client n).waiting

-- The end of the loop: the request is done, or the client's `quit` is closed.
unfoldable pub close_stream : Text → Text → ℕ → State → State
unfolding unsubscribe
close_stream schema_name table n s = unsubscribe (stream_channel schema_name table) n s
