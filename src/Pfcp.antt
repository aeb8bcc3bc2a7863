-- ===== src/Pfcp.antt =====
-- The PFCP datagrams between SMF and UPF (pkg/models/pfcp.go): a byte is a number below 256.
pub mod Bytes
pub mod Laws
mod Tests
use pdu_session_sim.Common.{
  ℕ, List, [], ◌∷◌, ◌++◌, none, some, Text, text, Result, ok, err, ◌==◌, ltb, if◌then◌else◌, length,
  take, drop, get_or, nat_eq,
}
use pdu_session_sim.Ip.{parse_ip4}
use Bytes.{put_uint16, put_uint32, uint16, uint32}

pub record PfcpHeader : Type 0 where
  pub version_and_flags : ℕ
  pub message_type : ℕ
  pub length : ℕ
  pub sequence_number : ℕ

pub record PfcpSessionRequest : Type 0 where
  pub header : PfcpHeader
  pub pdn_type : ℕ
  pub ip : List ℕ

pub record PfcpSessionResponse : Type 0 where
  pub header : PfcpHeader
  pub cause : ℕ

-- The header's eight bytes, which both encoders write first.
abbrev pub header_bytes : ℕ → ℕ → ℕ → List ℕ
header_bytes msg_type payload seq = 0x20 ∷ msg_type ∷ (put_uint16 payload ++ put_uint32 seq)

unfoldable pub encode_request : ℕ → ℕ → Text → Result (List ℕ)
unfolding put_uint16 put_uint32
encode_request msg_type seq ip = elim (parse_ip4 ip) [
  | none ↦ err (text "invalid IPv4 address")
  | some parsed_ip ↦ ok (header_bytes msg_type 5 seq ++ (1 ∷ take 4 parsed_ip))
]

-- The header that a decoder reads from the first eight bytes.
abbrev pub header_of : List ℕ → PfcpHeader
header_of bytes = record {
  version_and_flags = get_or bytes 0 0;
  message_type = get_or bytes 1 0;
  length = uint16 (drop 2 bytes);
  sequence_number = uint32 (drop 4 bytes);
}

unfoldable pub decode_request : List ℕ → Result PfcpSessionRequest
unfolding uint16 uint32
decode_request bytes =
    if ltb (length bytes) 13
    then err (text "data too short for request")
    else if get_or bytes 0 0 == 0x20
    then ok (record {
      header = header_of bytes;
      pdn_type = get_or bytes 8 0;
      ip = take 4 (drop 9 bytes);
    })
    else err (text "invalid PFCP version/flags")

unfoldable pub encode_response : ℕ → ℕ → ℕ → Result (List ℕ)
unfolding put_uint16 put_uint32
encode_response msg_type seq cause = ok (header_bytes msg_type 1 seq ++ cause ∷ [])

unfoldable pub decode_response : List ℕ → Result PfcpSessionResponse
unfolding uint16 uint32
decode_response bytes =
    if ltb (length bytes) 9
    then err (text "data too short for response")
    else if get_or bytes 0 0 == 0x20
    then ok (record { header = header_of bytes; cause = get_or bytes 8 0 })
    else err (text "invalid PFCP version/flags")
