-- ===== src/Upf/Tests.antt =====
-- Runs of the UPF on an establishment, its modification, and a packet that it does not serve.
use pdu_session_sim.Common.{ℕ, suc, ◌≡◌, refl, List, [], ◌∷◌, some, ok, lookup, nat_eq, arith}
use pdu_session_sim.Pfcp.{PfcpSessionRequest, decode_response, decode_request}
use pdu_session_sim.Pfcp.Bytes.{AreBytes}
use pdu_session_sim.Pfcp.Laws.{header}
use pdu_session_sim.Upf.{
  new_server, handle_packet, listen_loop, packet, read_failed, stopped, seq_of, establish, modify,
}
use pdu_session_sim.Upf.Laws.{handle_packet-view, handle_packet-answer}
use pdu_session_sim.Upf.Spec.{served, view, after_request, IsKeyed}

abbrev request_bytes : List ℕ
request_bytes = 0x20 ∷ 50 ∷ 0 ∷ 5 ∷ 0 ∷ 0 ∷ 0 ∷ 1 ∷ 1 ∷ 10 ∷ 11 ∷ 22 ∷ 2 ∷ []

abbrev modification_bytes : List ℕ
modification_bytes = 0x20 ∷ 52 ∷ 0 ∷ 5 ∷ 0 ∷ 0 ∷ 0 ∷ 1 ∷ 1 ∷ 10 ∷ 11 ∷ 22 ∷ 3 ∷ []

abbrev request : PfcpSessionRequest
request = record { header = header 50 5 1; pdn_type = 1; ip = 10 ∷ 11 ∷ 22 ∷ 2 ∷ [] }

start-IsKeyed : IsKeyed new_server
unfolding new_server lookup
start-IsKeyed seq sess h = ground (arith, h)

is_served : served request_bytes ≡ some request
unfolding decode_request
is_served = refl

are_bytes : AreBytes request_bytes
are_bytes = ground arith

-- A second packet replaces the address; the others leave the table as it is.
two_packets :
    lookup 1
      (listen_loop new_server (
        packet request_bytes
        ∷ read_failed
        ∷ packet (0x20 ∷ [])
        ∷ packet modification_bytes
        ∷ stopped
        ∷ packet request_bytes
        ∷ [])).0.sessions
    ≡ some (record { seq_num = 1; pdn_type = 1; ip = 10 ∷ 11 ∷ 22 ∷ 3 ∷ [] })
unfolding listen_loop handle_packet establish modify lookup decode_request new_server
two_packets = refl

handle_packet-view_example :
    view (handle_packet new_server request_bytes).0 1
    ≡ after_request (served request_bytes) (view new_server) 1
handle_packet-view_example = handle_packet-view new_server request_bytes 1 start-IsKeyed

handle_packet-answer_example :
    (answer : List ℕ) × ((handle_packet new_server request_bytes).1 ≡ some answer)
    × (decode_response answer
        ≡ ok (record { header = header (suc 50) 1 (seq_of request); cause = 1 }))
handle_packet-answer_example =
    handle_packet-answer new_server request_bytes request is_served are_bytes
