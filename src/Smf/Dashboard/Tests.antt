-- ===== src/Smf/Dashboard/Tests.antt =====
-- Two clients, of whom one leaves before a broadcast.
use pdu_session_sim.Common.{
  ◌≤◌, ◌<◌, ◌≡◌, ◌≢◌, ◌⊎◌, refl, List, [], ◌∷◌, ◌++◌, Text, true, false, none, some, text, lookup,
  insert, length, nat_eq,
}
use mathlib.Core.List.{Sublist}
use pdu_session_sim.Smf.Dashboard.{
  Channel, DashboardHub, init_dashboard_hub, connect, disconnect, forward, broadcast_event,
  offer_all, take_message, sse_data,
}
use pdu_session_sim.Smf.Dashboard.Delivery.{Follows-ordered}
use pdu_session_sim.Smf.Dashboard.Stream as Streams
use pdu_session_sim.Smf.Dashboard.Stream.{
  streaming, Stream, ping, begin_stream, stream_round, Follows, begun, looped, forwarded,
}
use pdu_session_sim.Smf.Dashboard.Reach.{
  Reachable, started, connected, broadcast, Reachable-never_panics,
}

abbrev two_clients : DashboardHub
two_clients =
    broadcast_event (text "SESSION_UPDATE") (some (text "{}"))
      (connect (connect init_dashboard_hub))

two_clients-Reachable : Reachable two_clients
two_clients-Reachable =
    broadcast (text "SESSION_UPDATE") (some (text "{}")) (connect (connect init_dashboard_hub))
      (connected (connect init_dashboard_hub) (connected init_dashboard_hub started))

Reachable-never_panics_example :
    (disconnect 0 two_clients ≢ none)
    × (forward two_clients ≢ none)
    × (length two_clients.broadcast ≤ 200)
Reachable-never_panics_example = Reachable-never_panics two_clients 0 two_clients-Reachable

abbrev came : DashboardHub × Stream
came = begin_stream true (connect init_dashboard_hub)

abbrev told : DashboardHub
told = broadcast_event (text "SESSION_UPDATE") (some (text "{}")) came.0

abbrev event : Text
event = sse_data (text "SESSION_UPDATE") (text "{}")

abbrev sent_on : DashboardHub
sent_on = record told {
  channels =
      (0, record { buffer = event ∷ []; is_open = true })
      ∷ (1, record { buffer = event ∷ []; is_open = true })
      ∷ [];
  broadcast = [];
}

told_waits : told.broadcast ≡ event ∷ []
unfolding begin_stream connect init_dashboard_hub broadcast_event
told_waits = refl

told_forwards : forward told ≡ some sent_on
unfolding begin_stream connect init_dashboard_hub broadcast_event forward offer_all insert lookup
told_forwards = refl

abbrev wrote : DashboardHub × Stream
wrote = stream_round false sent_on came.1

is_streaming : came.1.phase ≡ streaming
unfolding begin_stream
is_streaming = refl

wrote-Follows : Follows true wrote.0 wrote.1 (event ∷ [])
wrote-Follows =
    looped false
      (forwarded sent_on event []
        (Streams.broadcast (text "SESSION_UPDATE") (some (text "{}"))
          (begun (connect init_dashboard_hub) (connected init_dashboard_hub started)))
        told_waits told_forwards)
      is_streaming

wrote_event : wrote.1.written ≡ ping ∷ event ∷ []
unfolding stream_round begin_stream connect init_dashboard_hub take_message lookup
wrote_event = refl

Follows-ordered_example :
    (queue : Channel) × (events : List Text) × (lookup wrote.1.channel wrote.0.channels
      ≡ some queue)
    × (wrote.1.written ≡ ping ∷ events)
    × Sublist events (event ∷ [])
    × ((wrote.1.phase ≢ streaming)
        ⊎ (20 < length (event ∷ []))
        ⊎ (events ++ queue.buffer ≡ event ∷ []))
Follows-ordered_example = Follows-ordered wrote.0 wrote.1 (event ∷ []) wrote-Follows
