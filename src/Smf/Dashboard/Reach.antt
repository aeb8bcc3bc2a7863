-- ===== src/Smf/Dashboard/Reach.antt =====
-- The hubs that the dashboard's goroutines can reach, in any order of their steps (internal/smf/dashboard.go).
use pdu_session_sim.Common.{
  ℕ, ◌≤◌, ◌≡◌, ◌≢◌, subst, Option, none, some, Text, length, nat_eq, arith,
}
use pdu_session_sim.Smf.Dashboard.{
  DashboardHub, init_dashboard_hub, connect, disconnect, forward, broadcast_event, take_message,
}
use pdu_session_sim.Smf.Dashboard.Channels.{IsSound, init_dashboard_hub-IsSound}
use pdu_session_sim.Smf.Dashboard.Laws.{
  connect-IsSound, disconnect-IsSound, forward-IsSound, broadcast_event-IsSound,
  take_message-IsSound,
}

pub data Reachable : DashboardHub → Type 0 where
  started : Reachable init_dashboard_hub
  connected : (h : DashboardHub) → Reachable h → Reachable (connect h)
  disconnected :
      (client : ℕ) (h h' : DashboardHub)
      → Reachable h
      → disconnect client h ≡ some h'
      → Reachable h'
  forwarded : (h h' : DashboardHub) → Reachable h → forward h ≡ some h' → Reachable h'
  broadcast :
      (event_type : Text) (payload : Option Text) (h : DashboardHub)
      → Reachable h
      → Reachable (broadcast_event event_type payload h)
  taken : (client : ℕ) (h : DashboardHub) → Reachable h → Reachable (take_message client h).0

Reachable-IsSound : (h : DashboardHub) → Reachable h → IsSound h
Reachable-IsSound _ started = init_dashboard_hub-IsSound
Reachable-IsSound _ (connected h r) = connect-IsSound h (Reachable-IsSound h r)
Reachable-IsSound _ (disconnected client h h' r e) =
    let (_, e', sound) = disconnect-IsSound h (Reachable-IsSound h r) client in
    subst IsSound (ground (arith, e, e')) sound
Reachable-IsSound _ (forwarded h h' r e) =
    let (_, e', sound) = forward-IsSound h (Reachable-IsSound h r) in
    subst IsSound (ground (arith, e, e')) sound
Reachable-IsSound _ (broadcast event_type payload h r) =
    broadcast_event-IsSound h (Reachable-IsSound h r) event_type payload
Reachable-IsSound _ (taken client h r) = take_message-IsSound h (Reachable-IsSound h r) client

-- In every hub that is reached, whatever the order in which clients come and go, events are broadcast and
-- messages are taken, the next disconnection and the next forward end without a panic, and at most 200
-- events wait.
pub Reachable-never_panics :
    (h : DashboardHub) (client : ℕ)
    → Reachable h
    → (disconnect client h ≢ none) × (forward h ≢ none) × (length h.broadcast ≤ 200)
Reachable-never_panics h client r =
    let sound = Reachable-IsSound h r in
    let (_, left, _) = disconnect-IsSound h sound client in
    let (_, sent, _) = forward-IsSound h sound in
    (ground (arith, left), ground (arith, sent), sound.queue_bounded)
