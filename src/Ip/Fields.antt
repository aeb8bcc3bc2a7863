-- ===== src/Ip/Fields.antt =====
-- `parseIPv4Fields` of Go's `net/netip`.
use pdu_session_sim.Common.{
  ℕ, ◌+◌, ◌-◌, ◌*◌, suc, List, [], ◌∷◌, ◌++◌, Option, none, some, Text, Bool, true, false, ◌&&◌,
  ◌||◌, ltb, leb, ◌==◌, if◌then◌else◌, length, nat_eq,
}

abbrev pub is_digit : ℕ → Bool
is_digit c = leb b'0' c && leb c b'9'

abbrev pub is_empty : Text → Bool
is_empty [] = true
is_empty (_ ∷ _) = false

-- The loop: `val` and `dig_len` describe the current octet, `fields` the octets before it.
unfoldable pub fields_from : ℕ → ℕ → List ℕ → Text → Option (List ℕ)
fields_from val dig_len fields [] = if length fields == 3 then some (fields ++ val ∷ []) else none
fields_from val dig_len fields (c ∷ s) =
    let digit = fields_from (val * 10 + (c - b'0')) (suc dig_len) fields s in
    let dot = fields_from 0 0 (fields ++ val ∷ []) s in
    if is_digit c
    then (if dig_len == 1 && val == 0
        then none
        else if ltb 255 (val * 10 + (c - b'0'))
        then none
        else digit)
    else if c == b'.'
    then (if dig_len == 0 || is_empty s then none else if length fields == 3 then none else dot)
    else none

unfoldable pub parse_ipv4_fields : Text → Option (List ℕ)
unfolding fields_from
parse_ipv4_fields s = fields_from 0 0 [] s
