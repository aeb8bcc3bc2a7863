-- ===== src/Smf/Dashboard/Viewed.antt =====
-- What holds of a client of the dashboard while the hub works (`start` of internal/smf/dashboard.go).
use pdu_session_sim.Common.{
  ℕ, ◌<◌, ◌≤◌, ◌≡◌, ◌≢◌, ◌⊎◌, refl, sym, ap, subst, ◌∙◌, List, [], ◌∷◌, ◌++◌, Bool, true, false,
  Bool-cases, Option, some, Option-cases, Text, lookup, insert, lookup-insert, lookup-delete, ltb,
  length, length-append, nat_eq, ◌==◌, ==_iff, arith, inl, inr,
}
use mathlib.Core.List.{Sublist, append_assoc, sublist-append_left}
use mathlib.Core.List.Sublist as ListSublist
use pdu_session_sim.Smf.Dashboard.{
  Channel, DashboardHub, connect, disconnect, forward, broadcast_event, take_message,
  client_capacity,
}
use pdu_session_sim.Smf.Dashboard.Offers.{
  AreDistinct, insert-AreDistinct, offered, offer_all-listed, offer_all-unlisted,
}
use pdu_session_sim.Smf.Dashboard.Steps.{
  disconnect-AreDistinct, disconnect-outcome, forward-outcome, take_message-outcome,
}
use pdu_session_sim.Smf.Dashboard.Stream.{streaming, Stream}

-- The client's channel, and the events that it has written after its first line.
pub record Viewed (first : Text) (h : DashboardHub) (s : Stream) (sent : List Text) : Type 0 where
  pub distinct : AreDistinct h.clients
  pub made : s.channel < h.next_channel
  pub queue : Channel
  pub at : lookup s.channel h.channels ≡ some queue
  pub events : List Text
  pub is_written : s.written ≡ first ∷ events
  pub in_order : Sublist (events ++ queue.buffer) sent
  pub known : (s.phase ≢ streaming) ⊎ ((b : Bool) × (lookup s.channel h.clients ≡ some b))
  pub complete : (s.phase ≢ streaming) ⊎ (20 < length sent) ⊎ (events ++ queue.buffer ≡ sent)

-- A message that the channel is offered, at the end of what was sent.
offered-Sublist :
    (message : Text) (queue : Channel) (events sent : List Text)
    → Sublist (events ++ queue.buffer) sent
    → Sublist (events ++ (offered message queue).buffer) (sent ++ message ∷ [])
offered-Sublist message queue events sent in_order =
    elim (Bool-cases (ltb (length queue.buffer) client_capacity)) [
      | inl room ↦ rw room (
          subst (λ xs. Sublist xs (sent ++ message ∷ []))
            (append_assoc events queue.buffer (message ∷ []))
            (ListSublist.append in_order (ListSublist.refl (message ∷ []))))
      | inr full ↦ rw full (ListSublist.trans in_order (sublist-append_left sent (message ∷ [])))
    ]

offered_complete :
    (message : Text) (queue : Channel) (events sent : List Text)
    → (20 < length sent) ⊎ (events ++ queue.buffer ≡ sent)
    → (20 < length (sent ++ message ∷ []))
      ⊎ (events ++ (offered message queue).buffer ≡ sent ++ message ∷ [])
offered_complete message queue events sent (inl many) =
    inl (omega (arith, many, length-append sent (message ∷ [])))
offered_complete message queue events sent (inr same) =
    elim (Bool-cases (ltb (length queue.buffer) client_capacity)) [
      | inl room ↦ inr (
          rw room (
            sym (append_assoc events queue.buffer (message ∷ []))
            ∙ ap (λ (xs : List Text). xs ++ message ∷ []) same))
      | inr full ↦
          let long : 20 ≤ length queue.buffer = ground (arith, full) in
          inl (
            omega (
              arith,
              long,
              ap length same,
              length-append events queue.buffer,
              length-append sent (message ∷ []),
            ))
    ]

module _ (first : Text) (h : DashboardHub) (s : Stream) (sent : List Text)
    (v : Viewed first h s sent) where
  -- The hub changes, but not the client and its channel.
  apart-Viewed :
      (h' : DashboardHub)
      → AreDistinct h'.clients
      → h.next_channel ≤ h'.next_channel
      → lookup s.channel h'.channels ≡ lookup s.channel h.channels
      → lookup s.channel h'.clients ≡ lookup s.channel h.clients
      → Viewed first h' s sent
  apart-Viewed h' distinct more same_channel same_client = record {
    distinct = distinct;
    made = omega (arith, v.made, more);
    queue = v.queue;
    at = same_channel ∙ v.at;
    events = v.events;
    is_written = v.is_written;
    in_order = v.in_order;
    known = elim v.known [ inl ne ↦ inl ne | inr (b, there) ↦ inr (b, same_client ∙ there) ];
    complete = v.complete;
  }

  pub forwarded-Viewed :
      (h' : DashboardHub) (message : Text) (rest : List Text)
      → h.broadcast ≡ message ∷ rest
      → forward h ≡ some h'
      → Viewed first h' s (sent ++ message ∷ [])
  forwarded-Viewed h' message rest queue e =
      let (channels, done, next) = forward-outcome h message rest h' queue e in
      subst (λ (k : DashboardHub). Viewed first k s (sent ++ message ∷ [])) (sym next)
        (elim (Option-cases (lookup s.channel h.clients)) [
          | inl unlisted ↦ record {
            distinct = v.distinct;
            made = v.made;
            queue = v.queue;
            at =
                offer_all-unlisted message h.clients h.channels channels s.channel unlisted done
                ∙ v.at;
            events = v.events;
            is_written = v.is_written;
            in_order = ListSublist.trans v.in_order (sublist-append_left sent (message ∷ []));
            known = v.known;
            complete = elim v.known [
              | inl ne ↦ inl ne
              | inr (b, there) ↦ absurd (ground (arith, unlisted, there))
            ];
          }
          | inr (b, listed) ↦ record {
            distinct = v.distinct;
            made = v.made;
            queue = offered message v.queue;
            at =
                offer_all-listed message h.clients h.channels channels s.channel b v.queue
                  v.distinct listed done v.at;
            events = v.events;
            is_written = v.is_written;
            in_order = offered-Sublist message v.queue v.events sent v.in_order;
            known = v.known;
            complete = elim v.complete [
              | inl ne ↦ inl ne
              | inr c ↦ inr (offered_complete message v.queue v.events sent c)
            ];
          }
        ])

  pub connect-Viewed : Viewed first (connect h) s sent
  unfolding connect
  connect-Viewed =
      let new : (h.next_channel == s.channel) ≡ false =
        ground (arith, v.made, ==_iff h.next_channel s.channel) in
      apart-Viewed (connect h) (insert-AreDistinct h.next_channel true h.clients v.distinct)
        (omega arith)
        (ground (
          arith,
          new,
          lookup-insert h.next_channel s.channel (record { buffer = []; is_open = true })
              h.channels,
        ))
        (ground (arith, new, lookup-insert h.next_channel s.channel true h.clients))

  pub broadcast-Viewed :
      (event_type : Text) (payload : Option Text)
      → Viewed first (broadcast_event event_type payload h) s sent
  unfolding broadcast_event
  broadcast-Viewed event_type payload =
      apart-Viewed (broadcast_event event_type payload h)
        (subst AreDistinct (ground arith) v.distinct) (ground arith) (ground arith) (ground arith)

  pub other_left-Viewed :
      (h' : DashboardHub) (client : ℕ)
      → s.channel ≢ client
      → disconnect client h ≡ some h'
      → Viewed first h' s sent
  other_left-Viewed h' client other e =
      let differ : (client == s.channel) ≡ false = ground (arith, other, ==_iff client s.channel) in
      elim (disconnect-outcome h client h' e) [
        | inl same ↦ subst (λ (k : DashboardHub). Viewed first k s sent) (sym same) v
        | inr (c, at, next) ↦
            apart-Viewed h' (disconnect-AreDistinct h client h' e v.distinct) (ground (arith, next))
              (ground (
                arith,
                next,
                differ,
                lookup-insert client s.channel (record c { is_open = false }) h.channels,
              ))
              (ground (arith, next, differ, lookup-delete client s.channel h.clients))
      ]

  pub other_took-Viewed :
      (client : ℕ) → s.channel ≢ client → Viewed first (take_message client h).0 s sent
  other_took-Viewed client other =
      let differ : (client == s.channel) ≡ false = ground (arith, other, ==_iff client s.channel) in
      elim (take_message-outcome h client) [
        | inl nothing ↦ rw nothing v
        | inr (c, message, rest, at, front, next) ↦ rw next (
            apart-Viewed
              (record h { channels = insert client (record c { buffer = rest }) h.channels })
              v.distinct (omega arith)
              (ground (
                arith,
                differ,
                lookup-insert client s.channel (record c { buffer = rest }) h.channels,
              ))
              refl)
      ]
