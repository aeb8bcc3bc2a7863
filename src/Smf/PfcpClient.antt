-- ===== src/Smf/PfcpClient.antt =====
-- The SMF's PFCP client (internal/smf/pfcp_client.go): requests in flight are channels of one place,
-- found by sequence number. A channel is its number, so that an overwritten entry of `pending`
-- leaves the earlier call with a channel that nothing sends to.
pub mod Correlation
pub mod Laws
mod Tests
use pdu_session_sim.Common.{
  ℕ, zero, suc, ◌+◌, ◌%◌, ◌^◌, List, [], ◌∷◌, Option, none, some, Text, text, Bool, true, false,
  Result, ok, err, Map, lookup, insert, delete, ◌==◌, if◌then◌else◌, take, nat_eq,
}
use pdu_session_sim.Pfcp.{PfcpSessionResponse, encode_request, decode_response}

-- `none` is an empty channel.
pub record PfcpClient : Type 0 where
  pub seq_counter : ℕ
  pub pending : Map ℕ ℕ
  pub channels : Map ℕ (Option PfcpSessionResponse)
  pub next_channel : ℕ

unfoldable pub new_client : PfcpClient
new_client = record { seq_counter = 0; pending = []; channels = []; next_channel = 0 }

-- `select { case ch <- res: default: }`: a full channel keeps what it has.
unfoldable pub offer : ℕ → PfcpSessionResponse → PfcpClient → PfcpClient
unfolding lookup insert
offer ch res c = elim (lookup ch c.channels) [
  | none ↦ c
  | some none ↦ record c { channels = insert ch (some res) c.channels }
  | some (some _) ↦ c
]

-- A datagram that decodes goes to the call that waits for its sequence number, if one does.
unfoldable pub handle_response : List ℕ → PfcpClient → PfcpClient
unfolding lookup offer
handle_response bytes c = elim (decode_response bytes) [
  | err _ ↦ c
  | ok res ↦ elim (lookup res.header.sequence_number c.pending) [
    | none ↦ c
    | some ch ↦ offer ch res c
  ]
]

-- What one round of the receive loop meets: the stop channel, a failed read, or a datagram.
pub data Event : Type 0 where
  stopped read_failed : Event
  datagram : List ℕ → Event

-- The loop; the read buffer holds 1024 bytes.
unfoldable pub receive_loop : List Event → PfcpClient → PfcpClient
unfolding handle_response
receive_loop [] c = c
receive_loop (stopped ∷ _) c = c
receive_loop (read_failed ∷ es) c = receive_loop es c
receive_loop (datagram bytes ∷ es) c = receive_loop es (handle_response (take 1024 bytes) c)

-- `atomic.AddUint32(&c.seqCounter, 1)`.
unfoldable pub next_seq : PfcpClient → PfcpClient
next_seq c = record c { seq_counter = (c.seq_counter + 1) % 2 ^ 32 }

-- A new channel under the sequence number.
unfoldable pub register : ℕ → PfcpClient → PfcpClient
unfolding insert
register seq c = record c {
  pending = insert seq c.next_channel c.pending;
  channels = insert c.next_channel none c.channels;
  next_channel = suc c.next_channel;
}

-- The deferred `delete(c.pending, seq)`.
unfoldable pub unregister : ℕ → PfcpClient → PfcpClient
unfolding delete
unregister seq c = record c { pending = delete seq c.pending }

-- What happens to a call from outside: whether the write fails, the datagrams that the receive loop
-- hands on while the call waits, and whether the timer has fired and is taken by the `select`.
pub record Exchange : Type 0 where
  pub write_error : Option Text
  pub arrived : List (List ℕ)
  pub expired : Bool

-- The datagrams of a wait, in the order in which their goroutines take the lock.
unfoldable pub deliver : List (List ℕ) → PfcpClient → PfcpClient
unfolding handle_response
deliver [] c = c
deliver (bytes ∷ rest) c = deliver rest (handle_response bytes c)

-- The cause decides on what the channel yields.
unfoldable pub accept : Text → PfcpSessionResponse → Result PfcpSessionResponse
accept refusal res = if res.cause == 1 then ok res else err refusal

-- The final `select` of a call; it waits for the timer where nothing arrives.
unfoldable pub await : Text → Text → Bool → ℕ → PfcpClient → Result PfcpSessionResponse
unfolding lookup accept
await refusal timeout true ch c = err timeout
await refusal timeout false ch c = elim (lookup ch c.channels) [
  | none ↦ err timeout
  | some none ↦ err timeout
  | some (some res) ↦ accept refusal res
]

-- A call from the registration of its channel to the deferred removal, with no other call between;
-- `Correlation` has the calls interleaved.
unfoldable pub transact :
    Text
    → Text
    → (List ℕ → Exchange)
    → ℕ
    → List ℕ
    → PfcpClient
    → PfcpClient × Result PfcpSessionResponse
unfolding register deliver unregister await
transact refusal timeout net seq bytes c =
    let x = net bytes in
    elim x.write_error [
      | some e ↦ (unregister seq (register seq c), err e)
      | none ↦
          let c' = deliver x.arrived (register seq c) in
          (unregister seq c', await refusal timeout x.expired c.next_channel c')
    ]

abbrev pub rejected : Text
rejected = text "PFCP session establishment rejected by UPF"

abbrev pub timed_out : Text
timed_out = text "timeout waiting for PFCP session establishment response"

module _ (net : List ℕ → Exchange) where
  unfoldable pub send_session_establishment_request :
      Text → PfcpClient → PfcpClient × Result PfcpSessionResponse
  unfolding next_seq transact
  send_session_establishment_request ip_address c =
      let c' = next_seq c in
      elim (encode_request 50 c'.seq_counter ip_address) [
        | err e ↦ (c', err e)
        | ok bytes ↦ transact rejected timed_out net c'.seq_counter bytes c'
      ]

  unfoldable pub send_session_modification_request :
      Text → ℕ → PfcpClient → PfcpClient × Result PfcpSessionResponse
  unfolding transact
  send_session_modification_request ip_address seq_num c =
      elim (encode_request 52 seq_num ip_address) [
        | err e ↦ (c, err e)
        | ok bytes ↦
            transact (text "PFCP session modification rejected by UPF")
              (text "timeout waiting for PFCP session modification response") net seq_num bytes c
      ]
