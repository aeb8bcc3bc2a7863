-- ===== src/Upf/Laws.antt =====
-- The UPF's packet handler meets its specification.
use pdu_session_sim.Common.{
  ℕ, ◌∙◌, ◌≡◌, ◌↔◌, List, [], ◌∷◌, none, some, ok, lookup, lookup-insert, nat_eq, Option-cases,
  Result-cases, inl, inr, take, arith, suc, drop, ◌^◌, ◌<◌,
}
use pdu_session_sim.Pfcp.{PfcpSessionRequest, decode_request, encode_response, decode_response}
use pdu_session_sim.Pfcp.Bytes.{AreBytes, uint32-lt, drop-AreBytes}
use pdu_session_sim.Pfcp.Laws.{header, decode_response-encode_response, decode_request-eq-ok_iff}
use pdu_session_sim.Upf.Spec.{served, view, after_request, IsKeyed}
use pdu_session_sim.Upf.{
  Server, Event, reply, seq_of, modified, establish, modify, handle_packet, stopped, read_failed,
  packet, listen_loop,
}

-- An established session goes under its sequence number.
establish-view :
    (s : Server) (bytes : List ℕ) (req : PfcpSessionRequest) (seq : ℕ)
    → decode_request bytes ≡ ok req
    → view (establish s bytes).0 seq ≡ after_request (some req) (view s) seq
unfolding establish
establish-view s bytes req seq e = rw (e, establish) (lookup-insert (seq_of req) seq _ s.sessions)

-- A modification leaves what an establishment would.
modify-view :
    (s : Server) (bytes : List ℕ) (req : PfcpSessionRequest) (seq : ℕ)
    → IsKeyed s
    → decode_request bytes ≡ ok req
    → view (modify s bytes).0 seq ≡ after_request (some req) (view s) seq
unfolding modify
modify-view s bytes req seq k e = elim (Option-cases (lookup (seq_of req) s.sessions)) [
  | inl new ↦ rw (e, new, modify) (lookup-insert (seq_of req) seq _ s.sessions)
  | inr (sess, old) ↦ ground (
    arith,
    lookup-insert (seq_of req) seq (modified (some sess) req) s.sessions,
    k (seq_of req) sess old,
  )
]

-- Where the sessions are under their own sequence numbers, those after a packet are the ones that the
-- specification names: a served request replaces the
-- session under its sequence number, any other packet changes nothing.
pub handle_packet-view :
    (s : Server) (bytes : List ℕ) (seq : ℕ)
    → IsKeyed s
    → view (handle_packet s bytes).0 seq ≡ after_request (served bytes) (view s) seq
unfolding handle_packet establish modify
handle_packet-view s bytes seq k = elim (Result-cases (decode_request bytes)) [
  | inl (_, e) ↦ ground arith
  | inr (req, e) ↦
      let long = (decode_request-eq-ok_iff bytes).0 (req, e) in
      ground (arith, long, establish-view s bytes req seq, modify-view s bytes req seq k)
]

-- Packets keep every session under its own sequence number.
pub handle_packet-IsKeyed :
    (s : Server) (bytes : List ℕ) → IsKeyed s → IsKeyed (handle_packet s bytes).0
handle_packet-IsKeyed s bytes k seq sess h =
    ground (arith, handle_packet-view s bytes seq k, k seq sess)

-- However the loop's packets, failed reads and stop come, every session stays under its own sequence
-- number, if it was before.
pub listen_loop-IsKeyed : (s : Server) (es : List Event) → IsKeyed s → IsKeyed (listen_loop s es).0
unfolding listen_loop
listen_loop-IsKeyed s [] k = k
listen_loop-IsKeyed s (stopped ∷ es) k = k
listen_loop-IsKeyed s (read_failed ∷ es) k = listen_loop-IsKeyed s es k
listen_loop-IsKeyed s (packet bytes ∷ es) k =
    listen_loop-IsKeyed (handle_packet s (take 1024 bytes)).0 es
      (handle_packet-IsKeyed s (take 1024 bytes) k)

-- A packet is answered exactly if it carries a request that is served.
pub handle_packet-answered_iff :
    (s : Server) (bytes : List ℕ) → ((handle_packet s bytes).1 ≡ none) ↔ (served bytes ≡ none)
unfolding handle_packet establish modify encode_response
handle_packet-answered_iff s bytes = elim (Result-cases (decode_request bytes)) [
  | inl (_, e) ↦ ground arith
  | inr (req, e) ↦ let long = (decode_request-eq-ok_iff bytes).0 (req, e) in ground (arith, long)
]

-- A decoded sequence number has 32 bits.
pub served_seq-lt :
    (bytes : List ℕ) (req : PfcpSessionRequest)
    → served bytes ≡ some req
    → AreBytes bytes
    → seq_of req < 2 ^ 32
unfolding decode_request
served_seq-lt bytes req e h = ground (arith, uint32-lt (drop 4 bytes) (drop-AreBytes 4 bytes h))

handle_packet-reply :
    (s : Server) (bytes : List ℕ) (req : PfcpSessionRequest)
    → served bytes ≡ some req
    → (handle_packet s bytes).1 ≡ reply (suc req.header.message_type) req
unfolding handle_packet establish modify decode_request
handle_packet-reply s bytes req e = ground arith

pub handle_packet-answer_seq :
    (s : Server) (bytes : List ℕ) (req : PfcpSessionRequest)
    → served bytes ≡ some req
    → seq_of req < 2 ^ 32
    → (answer : List ℕ) × ((handle_packet s bytes).1 ≡ some answer)
      × (decode_response answer
          ≡ ok (record { header = header (suc req.header.message_type) 1 (seq_of req); cause = 1 }))
handle_packet-answer_seq s bytes req e h =
    let (answer, sent, size, read) =
      decode_response-encode_response (suc req.header.message_type) (seq_of req) 1 h in
    (answer, handle_packet-reply s bytes req e ∙ rw (sent, reply), read)

-- The answer to a served request, in a packet of bytes, is accepted (cause 1), carries the request's sequence number and
-- has the message type after the request's, as the SMF decodes it.
pub handle_packet-answer :
    (s : Server) (bytes : List ℕ) (req : PfcpSessionRequest)
    → served bytes ≡ some req
    → AreBytes bytes
    → (answer : List ℕ) × ((handle_packet s bytes).1 ≡ some answer)
      × (decode_response answer
          ≡ ok (record { header = header (suc req.header.message_type) 1 (seq_of req); cause = 1 }))
handle_packet-answer s bytes req e h =
    handle_packet-answer_seq s bytes req e (served_seq-lt bytes req e h)
