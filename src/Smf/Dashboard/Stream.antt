-- ===== src/Smf/Dashboard/Stream.antt =====
-- A client of the dashboard (`ServeHTTP` of internal/smf/dashboard.go): what its goroutine does with its
-- channel and writes to its connection.
use pdu_session_sim.Common.{
  ℕ, ◌≡◌, ◌≢◌, List, [], ◌∷◌, ◌++◌, Bool, true, false, Option, none, some, Text, text, lookup,
  nat_eq, if◌then◌else◌,
}
use pdu_session_sim.Smf.Dashboard.{
  DashboardHub, connect, disconnect, forward, broadcast_event, take_message,
}
use pdu_session_sim.Smf.Dashboard.Reach.{Reachable}

-- In the loop, on the way to the deferred `unregister`, or through.
pub data Phase : Type 0 where
  streaming leaving gone : Phase

pub record Stream : Type 0 where
  pub channel : ℕ
  pub phase : Phase
  pub status : ℕ
  pub written : List Text

abbrev pub ping : Text
ping = text "event: ping" ++ (10 ∷ (text "data: connected" ++ (10 ∷ 10 ∷ [])))

-- The channel is made and registered; a connection that cannot flush gets an error, any other a ping.
unfoldable pub begin_stream : Bool → DashboardHub → DashboardHub × Stream
unfolding connect
begin_stream flushes h = (
  connect h,
  if flushes
      then record { channel = h.next_channel; phase = streaming; status = 200; written = ping ∷ [] }
      else record {
        channel = h.next_channel;
        phase = leaving;
        status = 500;
        written = text "Streaming unsupported" ∷ [];
      },
)

abbrev pub is_closed : ℕ → DashboardHub → Bool
is_closed client h = elim (lookup client h.channels) [
  | none ↦ false
  | some c ↦ if c.is_open then false else true
]

-- One `select` of the loop: the request has ended, or the channel yields. An empty channel that is open
-- makes it wait.
unfoldable pub stream_round : Bool → DashboardHub → Stream → DashboardHub × Stream
unfolding take_message lookup
stream_round true h s = (h, record s { phase = leaving })
stream_round false h s =
    let (h', taken) = take_message s.channel h in
    elim taken [
      | some message ↦ (h', record s { written = s.written ++ message ∷ [] })
      | none ↦ (h, if is_closed s.channel h then record s { phase = leaving } else s)
    ]

-- A client's stream from its start on, while others come and go, and the messages that the hub has taken
-- from its queue since.
pub data Follows (flushes : Bool) : DashboardHub → Stream → List Text → Type 0 where
  begun :
      (h : DashboardHub)
      → Reachable h
      → Follows flushes (begin_stream flushes h).0 (begin_stream flushes h).1 []
  looped :
      {h : DashboardHub} {s : Stream} {sent : List Text} (notified : Bool)
      → Follows flushes h s sent
      → s.phase ≡ streaming
      → Follows flushes (stream_round notified h s).0 (stream_round notified h s).1 sent
  left :
      {h : DashboardHub} {s : Stream} {sent : List Text} (h' : DashboardHub)
      → Follows flushes h s sent
      → s.phase ≡ leaving
      → disconnect s.channel h ≡ some h'
      → Follows flushes h' (record s { phase = gone }) sent
  forwarded :
      {h : DashboardHub} {s : Stream} {sent : List Text} (h' : DashboardHub) (message : Text)
      (rest : List Text)
      → Follows flushes h s sent
      → h.broadcast ≡ message ∷ rest
      → forward h ≡ some h'
      → Follows flushes h' s (sent ++ message ∷ [])
  broadcast :
      {h : DashboardHub} {s : Stream} {sent : List Text} (event_type : Text) (payload : Option Text)
      → Follows flushes h s sent
      → Follows flushes (broadcast_event event_type payload h) s sent
  other_came :
      {h : DashboardHub} {s : Stream} {sent : List Text}
      → Follows flushes h s sent
      → Follows flushes (connect h) s sent
  other_left :
      {h : DashboardHub} {s : Stream} {sent : List Text} (h' : DashboardHub) (client : ℕ)
      → Follows flushes h s sent
      → s.channel ≢ client
      → disconnect client h ≡ some h'
      → Follows flushes h' s sent
  other_took :
      {h : DashboardHub} {s : Stream} {sent : List Text} (client : ℕ)
      → Follows flushes h s sent
      → s.channel ≢ client
      → Follows flushes (take_message client h).0 s sent
