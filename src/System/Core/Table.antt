-- ===== src/System/Core/Table.antt =====
-- What the UPF's table holds of the requests that the SMF writes (internal/upf/server.go,
-- pkg/models/pfcp.go).
use pdu_session_sim.Common.{
  ℕ, ◌<◌, ◌≡◌, ◌^◌, refl, sym, ap, ◌∙◌, List, [], ◌∷◌, ◌++◌, some, Option-cases, Text, ok, take,
  nat_eq, ◌==◌, ==_iff, ==_refl, Bool-cases, inl, inr, arith,
}
use pdu_session_sim.Ip.{parse_ip4}
use pdu_session_sim.Pfcp.{
  PfcpSessionResponse, encode_request, decode_request, decode_response, header_bytes,
  PfcpSessionRequest,
}
use pdu_session_sim.Upf.{Server, seq_of, new_session, UpfSession, handle_packet}
use pdu_session_sim.Upf.Laws.{
  handle_packet-view, handle_packet-answer_seq, handle_packet-answered_iff,
}
use pdu_session_sim.Upf.Spec.{served, view, IsKeyed}

-- The UPF has an entry under the sequence number, with the four bytes of the address.
abbrev pub Stored : Server → ℕ → Text → Type 0
Stored upf seq ip =
    (bytes : List ℕ) × (sess : UpfSession) × (parse_ip4 ip ≡ some bytes)
    × (view upf seq ≡ some sess)
    × (sess.ip ≡ take 4 bytes)

take_4_twice : (bytes : List ℕ) → take 4 (take 4 bytes) ≡ take 4 bytes
take_4_twice [] = refl
take_4_twice (a ∷ []) = refl
take_4_twice (a ∷ b ∷ []) = refl
take_4_twice (a ∷ b ∷ c ∷ []) = refl
take_4_twice (a ∷ b ∷ c ∷ d ∷ rest) = refl

-- A written request that the UPF serves has its sequence number and its address there.
served-encode_request :
    (seq : ℕ) (ip : Text) (bytes : List ℕ) (req : PfcpSessionRequest)
    → seq < 2 ^ 32
    → encode_request 50 seq ip ≡ ok bytes
    → served bytes ≡ some req
    → (seq_of req ≡ seq)
      × (parsed : List ℕ) × (parse_ip4 ip ≡ some parsed)
      × (req.ip ≡ take 4 parsed)
unfolding encode_request decode_request
served-encode_request seq ip bytes req small encoded serves = elim (Option-cases (parse_ip4 ip)) [
  | inl invalid ↦ absurd (ground (arith, invalid, encoded))
  | inr (parsed, valid) ↦
      let written : bytes ≡ header_bytes 50 5 seq ++ (1 ∷ take 4 parsed) =
        ground (arith, valid, encoded) in
      let read : served (header_bytes 50 5 seq ++ (1 ∷ take 4 parsed)) ≡ some req =
        ap served (sym written) ∙ serves in
      (ground (arith, read), parsed, valid, ground (arith, read, take_4_twice parsed))
]

module _ (upf : Server) (seq : ℕ) (ip : Text) (bytes : List ℕ) (keyed : IsKeyed upf)
    (small : seq < 2 ^ 32) (encoded : encode_request 50 seq ip ≡ ok bytes) where
  -- A written request leaves every entry that has the request's address where it has its number.
  pub handle_packet-Stored :
      (k : ℕ) (other : Text)
      → (k ≡ seq → other ≡ ip)
      → Stored upf k other
      → Stored (handle_packet upf bytes).0 k other
  handle_packet-Stored k other same (parsed, sess, valid, found, at) =
      elim (Option-cases (served bytes)) [
        | inl not_served ↦ (
          parsed,
          sess,
          valid,
          ground (arith, not_served, found, handle_packet-view upf bytes k keyed),
          at,
        )
        | inr (req, serves) ↦
            let (number, parsed', valid', at') =
              served-encode_request seq ip bytes req small encoded serves in
            elim (Bool-cases (seq == k)) [
              | inl own ↦
                  let eq : other ≡ ip = same (ground (arith, own, ==_iff seq k)) in
                  (
                    parsed',
                    new_session req,
                    ap parse_ip4 eq ∙ valid',
                    ground (arith, serves, number, own, handle_packet-view upf bytes k keyed),
                    at',
                  )
              | inr ne ↦ (
                parsed,
                sess,
                valid,
                ground (arith, serves, number, ne, found, handle_packet-view upf bytes k keyed),
                at,
              )
            ]
      ]

  -- An answer to a written request carries its number, and the entry is there.
  pub handle_packet-answered :
      (answer : List ℕ)
      → (handle_packet upf bytes).1 ≡ some answer
      → (res : PfcpSessionResponse) × (decode_response answer ≡ ok res)
        × (res.header.sequence_number ≡ seq)
        × Stored (handle_packet upf bytes).0 seq ip
  handle_packet-answered answer sent = elim (Option-cases (served bytes)) [
    | inl not_served ↦
        absurd (ground (arith, sent, (handle_packet-answered_iff upf bytes).1 not_served))
    | inr (req, serves) ↦
        let (number, parsed, valid, at) =
          served-encode_request seq ip bytes req small encoded serves in
        let (answer', sent', read) =
          handle_packet-answer_seq upf bytes req serves (omega (arith, number, small)) in
        let same : answer' ≡ answer = ground (arith, sent, sent') in
        (
          _,
          ap decode_response (sym same) ∙ read,
          number,
          (
            parsed,
            new_session req,
            valid,
            ground (arith, serves, number, ==_refl seq, handle_packet-view upf bytes seq keyed),
            at,
          ),
        )
  ]
