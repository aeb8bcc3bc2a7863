-- ===== src/Smf/Dashboard.antt =====
-- The dashboard's hub (internal/smf/dashboard.go): clients are channels of twenty places, named by
-- numbers. What Go panics on, a send to a closed channel or a second close, is `none`.
pub mod Channels
pub mod Laws
pub mod Reach
pub mod Stream
pub mod Offers
pub mod Steps
pub mod Viewed
pub mod Delivery
mod Tests
use pdu_session_sim.Common.{
  ℕ, suc, List, [], ◌∷◌, ◌++◌, Bool, true, false, Option, none, some, Text, text, Map, lookup,
  insert, delete, ltb, if◌then◌else◌, length, nat_eq,
}

pub record Channel : Type 0 where
  pub buffer : List Text
  pub is_open : Bool

pub record DashboardHub : Type 0 where
  pub clients : Map ℕ Bool
  pub channels : Map ℕ Channel
  pub next_channel : ℕ
  pub broadcast : List Text

unfoldable pub init_dashboard_hub : DashboardHub
init_dashboard_hub = record { clients = []; channels = []; next_channel = 0; broadcast = [] }

abbrev pub client_capacity : ℕ
client_capacity = 20

abbrev pub broadcast_capacity : ℕ
broadcast_capacity = 200

-- `ServeHTTP` makes a channel and registers it with the hub.
unfoldable pub connect : DashboardHub → DashboardHub
unfolding insert
connect h = record h {
  clients = insert h.next_channel true h.clients;
  channels = insert h.next_channel (record { buffer = []; is_open = true }) h.channels;
  next_channel = suc h.next_channel;
}

abbrev pub close : Channel → Option Channel
close c = if c.is_open then some (record c { is_open = false }) else none

-- The hub's case of `unregister`: a client that is known is removed and its channel closed.
unfoldable pub disconnect : ℕ → DashboardHub → Option DashboardHub
unfolding lookup insert delete
disconnect client h = elim (lookup client h.clients) [
  | none ↦ some h
  | some _ ↦ elim (lookup client h.channels) [
    | none ↦ none
    | some c ↦ elim (close c) [
      | none ↦ none
      | some c' ↦
          some
            (record h { clients = delete client h.clients; channels = insert client c' h.channels })
    ]
  ]
]

-- `select { case client <- message: default: }`.
abbrev pub offer : Text → Channel → Option Channel
offer message c =
    if c.is_open
    then (if ltb (length c.buffer) client_capacity
        then some (record c { buffer = c.buffer ++ message ∷ [] })
        else some c)
    else none

-- The loop over the clients.
unfoldable pub offer_all : Text → Map ℕ Bool → Map ℕ Channel → Option (Map ℕ Channel)
unfolding lookup insert
offer_all message [] channels = some channels
offer_all message ((client, _) ∷ rest) channels = elim (lookup client channels) [
  | none ↦ none
  | some c ↦ elim (offer message c) [
    | none ↦ none
    | some c' ↦ offer_all message rest (insert client c' channels)
  ]
]

-- The hub's case of `broadcast`: the oldest message goes to every client.
unfoldable pub forward : DashboardHub → Option DashboardHub
unfolding offer_all
forward h = elim h.broadcast [
  | [] ↦ some h
  | message ∷ rest ↦ elim (offer_all message h.clients h.channels) [
    | none ↦ none
    | some channels ↦ some (record h { channels = channels; broadcast = rest })
  ]
]

-- The event's text, around the JSON of its data.
abbrev pub sse_data : Text → Text → Text
sse_data event_type payload =
    text "event: " ++ (event_type ++ (10 ∷ (text "data: " ++ (payload ++ (10 ∷ 10 ∷ [])))))

-- A full queue drops the event; so does data that has no JSON (`none`).
unfoldable pub broadcast_event : Text → Option Text → DashboardHub → DashboardHub
broadcast_event event_type none h = h
broadcast_event event_type (some payload) h =
    if ltb (length h.broadcast) broadcast_capacity
    then record h { broadcast = h.broadcast ++ sse_data event_type payload ∷ [] }
    else h

-- A client's loop takes its oldest message.
unfoldable pub take_message : ℕ → DashboardHub → DashboardHub × Option Text
unfolding lookup insert
take_message client h = elim (lookup client h.channels) [
  | none ↦ (h, none)
  | some c ↦ elim c.buffer [
    | [] ↦ (h, none)
    | message ∷ rest ↦ (
      record h { channels = insert client (record c { buffer = rest }) h.channels },
      some message,
    )
  ]
]
