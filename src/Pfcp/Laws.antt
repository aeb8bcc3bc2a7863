-- ===== src/Pfcp/Laws.antt =====
-- Encoding and decoding of the datagrams are inverse, and the checks refuse exactly bad ones.
use pdu_session_sim.Common.{
  ℕ, ◌<◌, ◌≤◌, ◌^◌, ◌≡◌, ◌↔◌, refl, List, [], ◌∷◌, ◌++◌, none, Text, text, ok, err, arith, length,
  take, drop, get_or,
}
use pdu_session_sim.Ip.{parse_ip4, print_ipv4}
use pdu_session_sim.Ip.Laws.{parse_ip4-print_ipv4}
use pdu_session_sim.Pfcp.{
  header_bytes, header_of, PfcpHeader, PfcpSessionRequest, encode_request, decode_request,
  encode_response, decode_response,
}

abbrev pub header : ℕ → ℕ → ℕ → PfcpHeader
header msg_type payload seq = record {
  version_and_flags = 0x20;
  message_type = msg_type;
  length = payload;
  sequence_number = seq;
}

-- Every response is encoded, in nine bytes, and decoding gives back the message type, the sequence
-- number and the cause, for each 32-bit sequence number.
pub decode_response-encode_response :
    (msg_type seq cause : ℕ)
    → seq < 2 ^ 32
    → (bytes : List ℕ) × (encode_response msg_type seq cause ≡ ok bytes)
      × (length bytes ≡ 9)
      × (decode_response bytes ≡ ok (record { header = header msg_type 1 seq; cause = cause }))
unfolding encode_response decode_response
decode_response-encode_response msg_type seq cause h = (_, refl, refl, ground arith)

module _ (msg_type seq a b c d : ℕ) (hs : seq < 2 ^ 32) (ha : a < 256) (hb : b < 256) (hc : c < 256)
    (hd : d < 256) where
  -- The request for an address in dotted decimal is encoded, in thirteen bytes, and decoding gives
  -- back the message type, the 32-bit sequence number and the four bytes of the address.
  pub decode_request-encode_request :
      (bytes : List ℕ) × (encode_request msg_type seq (print_ipv4 a b c d) ≡ ok bytes)
      × (length bytes ≡ 13)
      × (decode_request bytes
          ≡ ok (record { header = header msg_type 5 seq; pdn_type = 1; ip = a ∷ b ∷ c ∷ d ∷ [] }))
  unfolding encode_request decode_request
  decode_request-encode_request =
      let e = parse_ip4-print_ipv4 a b c d ha hb hc hd in
      (
        header_bytes msg_type 5 seq ++ (1 ∷ a ∷ b ∷ c ∷ d ∷ []),
        rw (e, encode_request),
        refl,
        ground arith,
      )

-- An address that is not IPv4 is refused with its error, and no other request is.
pub encode_request-eq-err_iff :
    (msg_type seq : ℕ) (ip : Text)
    → ((e : Text) × (encode_request msg_type seq ip ≡ err e)) ↔ (parse_ip4 ip ≡ none)
unfolding encode_request
encode_request-eq-err_iff msg_type seq ip =
    (λ (_, h). ground arith, λ h. (text "invalid IPv4 address", ground arith))

-- A datagram is decoded as a request exactly if it has at least thirteen bytes and begins by 0x20.
pub decode_request-eq-ok_iff :
    (bytes : List ℕ)
    → ((r : PfcpSessionRequest) × (decode_request bytes ≡ ok r))
      ↔ ((13 ≤ length bytes) × (get_or bytes 0 0 ≡ 0x20))
unfolding decode_request
decode_request-eq-ok_iff bytes = (
  λ (_, h). (ground arith, ground arith),
  λ h. (
    record { header = header_of bytes; pdn_type = get_or bytes 8 0; ip = take 4 (drop 9 bytes) },
    ground arith,
  ),
)
