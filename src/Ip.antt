-- ===== src/Ip.antt =====
-- The parts of Go's `net` that the program calls on addresses: `net.IP.String` of four bytes,
-- `net.ParseIP` with `To4` behind it (pkg/models/pfcp.go, internal/smf/service.go).
mod V6
mod Fields
pub mod Laws
mod Tests
use Fields.{parse_ipv4_fields}
use pdu_session_sim.Common.{
  ℕ, ◌+◌, ◌/◌, ◌%◌, List, [], ◌∷◌, ◌++◌, Option, none, some, Text, ◌==◌, ltb, if◌then◌else◌, take,
  drop, text_eq, nat_eq,
}
use V6.{parse_ipv6}

-- One byte in decimal.
unfoldable pub print_octet : ℕ → Text
print_octet n =
    if ltb n 10
    then (48 + n) ∷ []
    else if ltb n 100
    then (48 + n / 10) ∷ (48 + n % 10) ∷ []
    else (48 + n / 100) ∷ (48 + n / 10 % 10) ∷ (48 + n % 10) ∷ []

-- `net.IP.String` of a four-byte address.
unfoldable pub print_ipv4 : ℕ → ℕ → ℕ → ℕ → Text
print_ipv4 a b c d =
    print_octet a ++ (b'.' ∷ (print_octet b ++ (b'.' ∷ (print_octet c ++ (b'.' ∷ print_octet d)))))

-- `netip.ParseAddr` looks for the first of `.`, `:` and `%`, and parses the whole text by it.
unfoldable pub parse_by : Text → Text → Option (List ℕ)
parse_by s [] = none
parse_by s (c ∷ rest) =
    let later = parse_by s rest in
    if c == b'.'
    then parse_ipv4_fields s
    else if c == b':'
    then parse_ipv6 s
    else if c == b'%'
    then none
    else later

-- `net.ParseIP(s).To4()`: the four bytes of an IPv4 address or of one mapped into IPv6.
unfoldable pub parse_ip4 : Text → Option (List ℕ)
unfolding parse_by parse_ipv4_fields parse_ipv6
parse_ip4 s = parse_by s s
