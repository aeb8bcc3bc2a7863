-- ===== src/Smf/Dashboard/Delivery.antt =====
-- What a client of the dashboard gets (`ServeHTTP` and `start` of internal/smf/dashboard.go).
use pdu_session_sim.Common.{
  ℕ, ◌<◌, ◌≡◌, ◌≢◌, ◌⊎◌, refl, sym, ap, subst, ◌∙◌, List, [], ◌∷◌, ◌++◌, Bool, true, false, some,
  Text, text, lookup, insert, lookup-insert_self, length, nat_eq, if◌then◌else◌, arith, inl, inr,
}
use mathlib.Core.List.{Sublist, append_assoc, sublist-append_left}
use mathlib.Core.List.Sublist as ListSublist
use pdu_session_sim.Smf.Dashboard.{Channel, DashboardHub, connect, disconnect}
use pdu_session_sim.Smf.Dashboard.Offers.{AreDistinct, insert-AreDistinct}
use pdu_session_sim.Smf.Dashboard.Steps.{
  Reachable-AreDistinct, disconnect-AreDistinct, disconnect-outcome, take_message-outcome,
}
use pdu_session_sim.Smf.Dashboard.Stream.{
  Phase, streaming, leaving, gone, Stream, ping, begin_stream, stream_round, is_closed, Follows,
  begun, looped, left, forwarded, broadcast, other_came, other_left, other_took,
}
use pdu_session_sim.Smf.Dashboard.Viewed.{
  Viewed, forwarded-Viewed, connect-Viewed, broadcast-Viewed, other_left-Viewed, other_took-Viewed,
}

module _ (first : Text) (h : DashboardHub) (s : Stream) (sent : List Text)
    (v : Viewed first h s sent) where
  -- A client that is out of its loop.
  ended-Viewed :
      (phase : Phase) → phase ≢ streaming → Viewed first h (record s { phase = phase }) sent
  ended-Viewed phase ne = record {
    distinct = v.distinct;
    made = v.made;
    queue = v.queue;
    at = v.at;
    events = v.events;
    is_written = v.is_written;
    in_order = v.in_order;
    known = inl ne;
    complete = inl ne;
  }

  left-Viewed :
      (h' : DashboardHub)
      → disconnect s.channel h ≡ some h'
      → Viewed first h' (record s { phase = gone }) sent
  left-Viewed h' e =
      let not_streaming : gone ≢ streaming = λ same. ground (arith, same) in
      elim (disconnect-outcome h s.channel h' e) [
        | inl same ↦
            subst (λ (k : DashboardHub). Viewed first k (record s { phase = gone }) sent) (sym same)
              (ended-Viewed gone not_streaming)
        | inr (c, at, next) ↦
            let same : v.queue.buffer ≡ c.buffer = ground (arith, at, v.at) in
            record {
              distinct = disconnect-AreDistinct h s.channel h' e v.distinct;
              made = ground (arith, next, v.made);
              queue = record c { is_open = false };
              at = ground (
                arith,
                next,
                lookup-insert_self s.channel (record c { is_open = false }) h.channels,
              );
              events = v.events;
              is_written = v.is_written;
              in_order = subst (λ xs. Sublist (v.events ++ xs) sent) same v.in_order;
              known = inl not_streaming;
              complete = inl not_streaming;
            }
      ]

  -- The client writes its oldest message.
  took-Viewed :
      (c : Channel) (message : Text) (rest : List Text)
      → lookup s.channel h.channels ≡ some c
      → c.buffer ≡ message ∷ rest
      → Viewed first
          (record h { channels = insert s.channel (record c { buffer = rest }) h.channels })
          (record s { written = s.written ++ message ∷ [] })
          sent
  took-Viewed c message rest at front =
      let same : v.events ++ v.queue.buffer ≡ (v.events ++ message ∷ []) ++ rest =
        ground (arith, at, v.at, front, append_assoc v.events (message ∷ []) rest) in
      record {
        distinct = v.distinct;
        made = v.made;
        queue = record c { buffer = rest };
        at = lookup-insert_self s.channel (record c { buffer = rest }) h.channels;
        events = v.events ++ message ∷ [];
        is_written = ap (λ (xs : List Text). xs ++ message ∷ []) v.is_written;
        in_order = subst (λ xs. Sublist xs sent) same v.in_order;
        known = v.known;
        complete = elim v.complete [
          | inl ne ↦ inl ne
          | inr (inl many) ↦ inr (inl many)
          | inr (inr all) ↦ inr (inr (sym same ∙ all))
        ];
      }

  waited-Viewed :
      (closed : Bool) → Viewed first h (if closed then record s { phase = leaving } else s) sent
  waited-Viewed true = ended-Viewed leaving (λ same. ground (arith, same))
  waited-Viewed false = v

  looped-Viewed :
      (notified : Bool) → (let (h', s') = stream_round notified h s in Viewed first h' s' sent)
  unfolding stream_round
  looped-Viewed true = ended-Viewed leaving (λ same. ground (arith, same))
  looped-Viewed false = elim (take_message-outcome h s.channel) [
    | inr (c, message, rest, at, front, next) ↦
        rw (next, stream_round) (rw next (took-Viewed c message rest at front))
    | inl nothing ↦ rw (nothing, stream_round) (waited-Viewed (is_closed s.channel h))
  ]

-- The first line of a client.
abbrev first_line : Bool → Text
first_line flushes = if flushes then ping else text "Streaming unsupported"

connected-Viewed :
    (first : Text) (h : DashboardHub) (phase : Phase) (status : ℕ)
    → AreDistinct h.clients
    → Viewed first
        (connect h)
        (record { channel = h.next_channel; phase = phase; status = status; written = first ∷ [] })
        []
unfolding connect
connected-Viewed first h phase status distinct = record {
  distinct = insert-AreDistinct h.next_channel true h.clients distinct;
  made = omega arith;
  queue = record { buffer = []; is_open = true };
  at = lookup-insert_self h.next_channel (record { buffer = []; is_open = true }) h.channels;
  events = [];
  is_written = refl;
  in_order = ListSublist.refl [];
  known = inr (true, lookup-insert_self h.next_channel true h.clients);
  complete = inr (inr refl);
}

begin_stream-Viewed :
    (flushes : Bool) (h : DashboardHub)
    → AreDistinct h.clients
    → (let (h', s) = begin_stream flushes h in Viewed (first_line flushes) h' s [])
unfolding begin_stream
begin_stream-Viewed true h distinct = connected-Viewed ping h streaming 200 distinct
begin_stream-Viewed false h distinct =
    connected-Viewed (text "Streaming unsupported") h leaving 500 distinct

Follows-Viewed :
    {flushes : Bool} {h : DashboardHub} {s : Stream} {sent : List Text}
    → Follows flushes h s sent
    → Viewed (first_line flushes) h s sent
Follows-Viewed {flushes} (begun h r) = begin_stream-Viewed flushes h (Reachable-AreDistinct h r)
Follows-Viewed {flushes} {sent = sent} (looped {h} {s} notified f at) =
    looped-Viewed (first_line flushes) h s sent (Follows-Viewed f) notified
Follows-Viewed {flushes} {sent = sent} (left {h} {s} h' f at e) =
    left-Viewed (first_line flushes) h s sent (Follows-Viewed f) h' e
Follows-Viewed {flushes} (forwarded {h} {s} {sent} h' message rest f queue e) =
    forwarded-Viewed (first_line flushes) h s sent (Follows-Viewed f) h' message rest queue e
Follows-Viewed {flushes} {s = s} {sent = sent} (broadcast {h} event_type payload f) =
    broadcast-Viewed (first_line flushes) h s sent (Follows-Viewed f) event_type payload
Follows-Viewed {flushes} {s = s} {sent = sent} (other_came {h} f) =
    connect-Viewed (first_line flushes) h s sent (Follows-Viewed f)
Follows-Viewed {flushes} {s = s} {sent = sent} (other_left {h} h' client f other e) =
    other_left-Viewed (first_line flushes) h s sent (Follows-Viewed f) h' client other e
Follows-Viewed {flushes} {s = s} {sent = sent} (other_took {h} client f other) =
    other_took-Viewed (first_line flushes) h s sent (Follows-Viewed f) client other

-- A client connects to a reachable hub, over a connection that can flush. However clients come and go and
-- events are broadcast, it has written the ping, and after it some of the messages that the hub has taken
-- from its queue since, in their order. As long as it is in its loop and these are not more than 20, none
-- of them is lost: what it has not written waits in its channel.
pub Follows-ordered :
    (h : DashboardHub) (s : Stream) (sent : List Text)
    → Follows true h s sent
    → (queue : Channel) × (events : List Text) × (lookup s.channel h.channels ≡ some queue)
      × (s.written ≡ ping ∷ events)
      × Sublist events sent
      × ((s.phase ≢ streaming) ⊎ (20 < length sent) ⊎ (events ++ queue.buffer ≡ sent))
Follows-ordered h s sent f =
    let v = Follows-Viewed f in
    (
      v.queue,
      v.events,
      v.at,
      v.is_written,
      ListSublist.trans (sublist-append_left v.events v.queue.buffer) v.in_order,
      v.complete,
    )
