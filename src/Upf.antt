-- ===== src/Upf.antt =====
-- The UPF's UDP server (internal/upf/server.go): its session table, its packet handler and its loop.
pub mod Spec
pub mod Laws
mod Tests
use pdu_session_sim.Common.{
  ℕ, List, [], ◌∷◌, ◌++◌, Option, none, some, Result, ok, err, Map, lookup, insert, ◌==◌, ltb,
  if◌then◌else◌, length, take, get_or, nat_eq,
}
use pdu_session_sim.Pfcp.{PfcpSessionRequest, decode_request, encode_response}

pub record UpfSession : Type 0 where
  pub seq_num : ℕ
  pub pdn_type : ℕ
  pub ip : List ℕ

-- The socket and the stop channel stand outside: the loop is given what they yield.
pub record Server : Type 0 where
  pub sessions : Map ℕ UpfSession

unfoldable pub new_server : Server
new_server = record { sessions = [] }

abbrev pub seq_of : PfcpSessionRequest → ℕ
seq_of req = req.header.sequence_number

abbrev pub new_session : PfcpSessionRequest → UpfSession
new_session req = record { seq_num = seq_of req; pdn_type = req.pdn_type; ip = req.ip }

-- The datagram that is sent back; an encoding error is logged.
abbrev pub reply : ℕ → PfcpSessionRequest → Option (List ℕ)
reply msg_type req = elim (encode_response msg_type (seq_of req) 1) [
  | err _ ↦ none
  | ok res_data ↦ some res_data
]

-- The entry that a modification request leaves for its sequence number.
abbrev pub modified : Option UpfSession → PfcpSessionRequest → UpfSession
modified (some sess) req = record sess { ip = req.ip; pdn_type = req.pdn_type }
modified none req = new_session req

-- The case of message type 50.
unfoldable pub establish : Server → List ℕ → Server × Option (List ℕ)
unfolding insert
establish s bytes = elim (decode_request bytes) [
  | err _ ↦ (s, none)
  | ok req ↦
      (record s { sessions = insert (seq_of req) (new_session req) s.sessions }, reply 51 req)
]

-- The case of message type 52.
unfoldable pub modify : Server → List ℕ → Server × Option (List ℕ)
unfolding lookup insert
modify s bytes = elim (decode_request bytes) [
  | err _ ↦ (s, none)
  | ok req ↦ (
    record s {
      sessions = insert (seq_of req) (modified (lookup (seq_of req) s.sessions) req) s.sessions;
    },
    reply 53 req,
  )
]

-- The table after a packet, and the datagram that goes back to the sender.
unfoldable pub handle_packet : Server → List ℕ → Server × Option (List ℕ)
handle_packet s bytes =
    if ltb (length bytes) 2
    then (s, none)
    else if get_or bytes 1 0 == 50
    then establish s bytes
    else if get_or bytes 1 0 == 52
    then modify s bytes
    else (s, none)

-- What one round of the loop meets: the stop channel, a failed read, or a packet.
pub data Event : Type 0 where
  stopped read_failed : Event
  packet : List ℕ → Event

abbrev sent_with : Option (List ℕ) → List (List ℕ) → List (List ℕ)
sent_with none later = later
sent_with (some d) later = d ∷ later

-- The loop, with the packets in the order in which their goroutines take the lock; the read buffer
-- holds 1024 bytes.
unfoldable pub listen_loop : Server → List Event → Server × List (List ℕ)
listen_loop s [] = (s, [])
listen_loop s (stopped ∷ _) = (s, [])
listen_loop s (read_failed ∷ es) = listen_loop s es
listen_loop s (packet bytes ∷ es) =
    let (s', answer) = handle_packet s (take 1024 bytes) in
    let (final, later) = listen_loop s' es in (final, sent_with answer later)
