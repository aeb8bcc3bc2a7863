-- ===== src/Smf/Dashboard/Laws.antt =====
-- The dashboard's hub (internal/smf/dashboard.go): its clients have open channels, so that it never panics.
use pdu_session_sim.Common.{
  ℕ, ◌≤◌, ◌≡◌, refl, subst, List, [], ◌∷◌, true, false, Bool-cases, Option, none, some,
  Option-cases, Text, lookup, insert, delete, lookup-insert, lookup-insert_cases,
  lookup-delete_cases, length, length-append, nat_eq, ◌==◌, ==_iff, arith, inl, inr,
}
use pdu_session_sim.Smf.Dashboard.{
  Channel, DashboardHub, connect, disconnect, forward, broadcast_event, sse_data, take_message,
}
use pdu_session_sim.Smf.Dashboard.Channels.{
  IsSound, IsOpenAt-insert, AreBounded-insert, offer_all-AreOpen,
}

module _ (h : DashboardHub) (sound : IsSound h) where
  -- A new client has an open, empty channel, and the hub stays sound.
  pub connect-IsSound : IsSound (connect h)
  unfolding connect
  connect-IsSound = record {
    are_open = λ client b found.
        elim (lookup-insert_cases h.next_channel client true b h.clients found) [
          | inl (same, _) ↦ (
            record { buffer = []; is_open = true },
            ground (
              arith,
              same,
              lookup-insert h.next_channel client (record { buffer = []; is_open = true })
                  h.channels,
              ==_iff h.next_channel client,
            ),
            refl,
          )
          | inr (_, before) ↦
              IsOpenAt-insert h.channels client h.next_channel
                (record { buffer = []; is_open = true }) refl (sound.are_open client b before)
        ];
    are_bounded =
        AreBounded-insert h.channels h.next_channel (record { buffer = []; is_open = true })
          (omega arith) sound.are_bounded;
    queue_bounded = sound.queue_bounded;
  }

  -- A client that leaves, also one that has left before, never makes the hub panic: no channel is closed
  -- twice, and the clients that remain keep open channels.
  pub disconnect-IsSound :
      (client : ℕ) → (h' : DashboardHub) × (disconnect client h ≡ some h') × IsSound h'
  unfolding disconnect
  disconnect-IsSound client = elim (Option-cases (lookup client h.clients)) [
    | inl unknown ↦ (h, ground (arith, unknown), sound)
    | inr (b, known) ↦
        let (c, at, alive) = sound.are_open client b known in
        let closed : Channel = record c { is_open = false } in
        (
          record h {
            clients = delete client h.clients;
            channels = insert client closed h.channels;
          },
          ground (arith, known, at, alive),
          record {
            are_open = λ other b' found.
                let (differ, before) = lookup-delete_cases client other b' h.clients found in
                let (d, at', lives') = sound.are_open other b' before in
                (
                  d,
                  ground (
                    arith,
                    at',
                    differ,
                    lookup-insert client other closed h.channels,
                    ==_iff client other,
                  ),
                  lives',
                );
            are_bounded =
                AreBounded-insert h.channels client closed (sound.are_bounded client c at)
                  sound.are_bounded;
            queue_bounded = sound.queue_bounded;
          },
        )
  ]

  -- A broadcast never sends to a closed channel, and fills no client's channel beyond its capacity.
  pub forward-IsSound : (h' : DashboardHub) × (forward h ≡ some h') × IsSound h'
  unfolding forward
  forward-IsSound = forwarded h.broadcast refl
    where
      forwarded :
          (queue : List Text)
          → h.broadcast ≡ queue
          → (h' : DashboardHub) × (forward h ≡ some h') × IsSound h'
      forwarded [] e = (h, ground (arith, e), sound)
      forwarded (message ∷ rest) e =
          let (channels', done, keeps, bounded) =
            offer_all-AreOpen message h.clients h.channels sound.are_open sound.are_bounded in
          (
            record h { channels = channels'; broadcast = rest },
            ground (arith, e, done),
            record {
              are_open = λ client b found. keeps client (sound.are_open client b found);
              are_bounded = bounded;
              queue_bounded = ground (arith, e, sound.queue_bounded);
            },
          )

  -- An event is queued or dropped, and the queue never holds more than its 200 places.
  pub broadcast_event-IsSound :
      (event_type : Text) (payload : Option Text) → IsSound (broadcast_event event_type payload h)
  unfolding broadcast_event
  broadcast_event-IsSound event_type none = sound
  broadcast_event-IsSound event_type (some payload) = record {
    are_open = ground (arith, sound.are_open);
    are_bounded = ground (arith, sound.are_bounded);
    queue_bounded =
        ground (
          arith,
          sound.queue_bounded,
          length-append h.broadcast (sse_data event_type payload ∷ []),
        );
  }

  -- A client that takes a message leaves the hub sound.
  pub take_message-IsSound : (client : ℕ) → IsSound (take_message client h).0
  unfolding take_message
  take_message-IsSound client = elim (Option-cases (lookup client h.channels)) [
    | inl unknown ↦ subst IsSound (ground (arith, unknown)) sound
    | inr (c, at) ↦ taken_of c.buffer c at refl
  ]
    where
      kept :
          (c : Channel) (rest : List Text)
          → length rest ≤ length c.buffer
          → lookup client h.channels ≡ some c
          → IsSound (record h { channels = insert client (record c { buffer = rest }) h.channels })
      kept c rest shorter at = record {
        are_open = λ other b found.
            let (d, at', lives) = sound.are_open other b found in
            elim (Bool-cases (client == other)) [
              | inl same ↦ (
                record c { buffer = rest },
                ground (
                  arith,
                  same,
                  lookup-insert client other (record c { buffer = rest }) h.channels,
                ),
                ground (arith, same, ==_iff client other, at, at', lives),
              )
              | inr differ ↦ (
                d,
                ground (
                  arith,
                  differ,
                  at',
                  lookup-insert client other (record c { buffer = rest }) h.channels,
                ),
                lives,
              )
            ];
        are_bounded =
            AreBounded-insert h.channels client (record c { buffer = rest })
              (ground (arith, shorter, sound.are_bounded client c at)) sound.are_bounded;
        queue_bounded = sound.queue_bounded;
      }

      taken_of :
          (buffer : List Text) (c : Channel)
          → lookup client h.channels ≡ some c
          → c.buffer ≡ buffer
          → IsSound (take_message client h).0
      taken_of [] c at e = subst IsSound (ground (arith, at, e)) sound
      taken_of (message ∷ rest) c at e =
          subst IsSound (ground (arith, at, e)) (kept c rest (ground (arith, e)) at)
