-- ===== src/Smf/Dashboard/Steps.antt =====
-- What each operation of the hub leaves (internal/smf/dashboard.go).
use pdu_session_sim.Common.{
  ℕ, ◌≡◌, ◌⊎◌, refl, sym, subst, List, [], ◌∷◌, true, false, Bool-cases, Option, none, some,
  Option-cases, Text, Map, lookup, insert, delete, nat_eq, arith, inl, inr,
}
use pdu_session_sim.Smf.Dashboard.{
  Channel, DashboardHub, init_dashboard_hub, connect, disconnect, forward, offer_all,
  broadcast_event, take_message,
}
use pdu_session_sim.Smf.Dashboard.Offers.{AreDistinct, insert-AreDistinct, delete-AreDistinct}
use pdu_session_sim.Smf.Dashboard.Reach.{
  Reachable, started, connected, disconnected, forwarded, broadcast, taken,
}

module _ (h : DashboardHub) where
  abbrev pub without : ℕ → Channel → DashboardHub
  without client c = record h {
    clients = delete client h.clients;
    channels = insert client (record c { is_open = false }) h.channels;
  }

  pub disconnect-outcome :
      (client : ℕ) (h' : DashboardHub)
      → disconnect client h ≡ some h'
      → (h' ≡ h) ⊎ ((c : Channel) × (lookup client h.channels ≡ some c) × (h' ≡ without client c))
  unfolding disconnect
  disconnect-outcome client h' e = elim (Option-cases (lookup client h.clients)) [
    | inl unknown ↦ inl (ground (arith, unknown, e))
    | inr (b, known) ↦ elim (Option-cases (lookup client h.channels)) [
      | inl lost ↦ absurd (ground (arith, known, lost, e))
      | inr (c, at) ↦ elim (Bool-cases c.is_open) [
        | inl alive ↦ inr (c, at, ground (arith, known, at, alive, e))
        | inr closed ↦ absurd (ground (arith, known, at, closed, e))
      ]
    ]
  ]

  pub forward-outcome :
      (message : Text) (rest : List Text) (h' : DashboardHub)
      → h.broadcast ≡ message ∷ rest
      → forward h ≡ some h'
      → (channels : Map ℕ Channel) × (offer_all message h.clients h.channels ≡ some channels)
        × (h' ≡ record h { channels = channels; broadcast = rest })
  unfolding forward
  forward-outcome message rest h' queue e =
      elim (Option-cases (offer_all message h.clients h.channels)) [
        | inl panics ↦ absurd (ground (arith, queue, panics, e))
        | inr (channels, done) ↦ (channels, done, ground (arith, queue, done, e))
      ]

  -- A client takes nothing, or its oldest message.
  abbrev pub Takes : ℕ → Type 0
  Takes client =
      (take_message client h ≡ (h, none))
      ⊎ ((c : Channel) × (message : Text) × (rest : List Text) × (lookup client h.channels ≡ some c)
          × (c.buffer ≡ message ∷ rest)
          × (take_message client h ≡ (
            record h { channels = insert client (record c { buffer = rest }) h.channels },
            some message,
          )))

  outcome_of_buffer :
      (client : ℕ) (c : Channel) (buffer : List Text)
      → lookup client h.channels ≡ some c
      → c.buffer ≡ buffer
      → Takes client
  unfolding take_message
  outcome_of_buffer client c [] at e = inl (ground (arith, at, e))
  outcome_of_buffer client c (message ∷ rest) at e =
      inr (c, message, rest, at, e, ground (arith, at, e))

  pub take_message-outcome : (client : ℕ) → Takes client
  unfolding take_message
  take_message-outcome client = elim (Option-cases (lookup client h.channels)) [
    | inl unknown ↦ inl (ground (arith, unknown))
    | inr (c, at) ↦ outcome_of_buffer client c c.buffer at refl
  ]

  clients-take_message : (client : ℕ) → (take_message client h).0.clients ≡ h.clients
  unfolding take_message
  clients-take_message client = ground arith

  clients-broadcast_event :
      (event_type : Text) (payload : Option Text)
      → (broadcast_event event_type payload h).clients ≡ h.clients
  unfolding broadcast_event
  clients-broadcast_event event_type payload = ground arith

  clients-forward : (h' : DashboardHub) → forward h ≡ some h' → h'.clients ≡ h.clients
  unfolding forward
  clients-forward h' e = ground (arith, e)

  connect-AreDistinct : AreDistinct h.clients → AreDistinct (connect h).clients
  unfolding connect
  connect-AreDistinct d = insert-AreDistinct h.next_channel true h.clients d

  pub disconnect-AreDistinct :
      (client : ℕ) (h' : DashboardHub)
      → disconnect client h ≡ some h'
      → AreDistinct h.clients
      → AreDistinct h'.clients
  disconnect-AreDistinct client h' e d = elim (disconnect-outcome client h' e) [
    | inl same ↦ subst (λ (k : DashboardHub). AreDistinct k.clients) (sym same) d
    | inr (c, _, left) ↦
        subst (λ (k : DashboardHub). AreDistinct k.clients) (sym left)
          (delete-AreDistinct client h.clients d)
  ]

-- In every reachable hub no client is there twice.
pub Reachable-AreDistinct : (h : DashboardHub) → Reachable h → AreDistinct h.clients
unfolding init_dashboard_hub
Reachable-AreDistinct _ started = tt
Reachable-AreDistinct _ (connected h r) = connect-AreDistinct h (Reachable-AreDistinct h r)
Reachable-AreDistinct _ (disconnected client h h' r e) =
    disconnect-AreDistinct h client h' e (Reachable-AreDistinct h r)
Reachable-AreDistinct _ (forwarded h h' r e) =
    subst AreDistinct (sym (clients-forward h h' e)) (Reachable-AreDistinct h r)
Reachable-AreDistinct _ (broadcast event_type payload h r) =
    subst AreDistinct (sym (clients-broadcast_event h event_type payload))
      (Reachable-AreDistinct h r)
Reachable-AreDistinct _ (taken client h r) =
    subst AreDistinct (sym (clients-take_message h client)) (Reachable-AreDistinct h r)
