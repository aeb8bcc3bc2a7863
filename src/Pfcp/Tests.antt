-- ===== src/Pfcp/Tests.antt =====
-- Runs of the codec.
use pdu_session_sim.Common.{ℕ, ◌≡◌, refl, List, [], ◌∷◌, text, ok, length, arith}
use pdu_session_sim.Ip.{parse_ip4, print_ipv4}
use pdu_session_sim.Pfcp.{encode_request, decode_request, encode_response, decode_response}
use pdu_session_sim.Pfcp.Laws.{
  header, decode_response-encode_response, decode_request-encode_request,
}

abbrev request_bytes : List ℕ
request_bytes = 0x20 ∷ 50 ∷ 0 ∷ 5 ∷ 0 ∷ 0 ∷ 1 ∷ 2 ∷ 1 ∷ 10 ∷ 11 ∷ 22 ∷ 2 ∷ []

encoded : encode_request 50 258 (text "10.11.22.2") ≡ ok request_bytes
unfolding encode_request parse_ip4
encoded = refl

decode_response-encode_response_example :
    (bytes : List ℕ) × (encode_response 51 258 1 ≡ ok bytes)
    × (length bytes ≡ 9)
    × (decode_response bytes ≡ ok (record { header = header 51 1 258; cause = 1 }))
decode_response-encode_response_example = decode_response-encode_response 51 258 1 (omega arith)

decode_request-encode_request_example :
    (bytes : List ℕ) × (encode_request 50 258 (print_ipv4 10 11 22 2) ≡ ok bytes)
    × (length bytes ≡ 13)
    × (decode_request bytes
        ≡ ok (record { header = header 50 5 258; pdn_type = 1; ip = 10 ∷ 11 ∷ 22 ∷ 2 ∷ [] }))
decode_request-encode_request_example =
    decode_request-encode_request 50 258 10 11 22 2 (omega arith) (omega arith) (omega arith)
      (omega arith) (omega arith)
