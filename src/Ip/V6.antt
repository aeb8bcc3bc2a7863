-- ===== src/Ip/V6.antt =====
-- `parseIPv6` of Go's `net/netip`, followed by the zone test of `net.ParseIP` and by `To4`.
use pdu_session_sim.Common.{
  ℕ, zero, ◌+◌, ◌-◌, ◌*◌, ◌/◌, ◌%◌, suc, List, [], ◌∷◌, ◌++◌, Option, none, some, Text, Bool, true,
  false, ◌&&◌, ◌||◌, ltb, leb, ◌==◌, if◌then◌else◌, length, take, drop, nat_eq, text_eq, text_beq,
}
use pdu_session_sim.Ip.Fields.{parse_ipv4_fields}

abbrev is_hex : ℕ → Bool
is_hex c = leb b'0' c && leb c b'9' || leb b'a' c && leb c b'f' || leb b'A' c && leb c b'F'

abbrev hex_value : ℕ → ℕ
hex_value c = if leb c b'9' then c - b'0' else if leb c b'F' then c - b'A' + 10 else c - b'a' + 10

-- Hex digits of one group: their number, their value and what follows; at most four are allowed.
hex_run : ℕ → ℕ → Text → Option (ℕ × ℕ × Text)
hex_run off acc [] = some (off, acc, [])
hex_run off acc (c ∷ s) =
    let more = hex_run (off + 1) (acc * 16 + hex_value c) s in
    if is_hex c then (if ltb 3 off then none else more) else some (off, acc, c ∷ s)

-- The bytes so far, where the ellipsis stands, and the text that is left.
abbrev Parsed : Type 0
Parsed = List ℕ × Option ℕ × Text

-- The text behind an ellipsis: nothing, or more groups; a second ellipsis is refused.
after_ellipsis :
    List ℕ → Option ℕ → Text → (List ℕ → Option ℕ → Text → Option Parsed) → Option Parsed
after_ellipsis ip (some _) s next = none
after_ellipsis ip none [] next = some (ip, some (length ip), [])
after_ellipsis ip none (c ∷ s) next = next ip (some (length ip)) (c ∷ s)

-- What follows a group: nothing, or a colon and more; a second colon is the ellipsis.
after_group : List ℕ → Option ℕ → Text → (List ℕ → Option ℕ → Text → Option Parsed) → Option Parsed
unfolding after_ellipsis
after_group ip ellipsis [] next = some (ip, ellipsis, [])
after_group ip ellipsis (c ∷ []) next = none
after_group ip ellipsis (c ∷ d ∷ s) next =
    if c == b':'
    then if d == b':' then after_ellipsis ip ellipsis s next else next ip ellipsis (d ∷ s)
    else none

starts_dot : Text → Bool
starts_dot [] = false
starts_dot (c ∷ _) = c == b'.'

has_ellipsis : Option ℕ → Bool
has_ellipsis none = false
has_ellipsis (some _) = true

-- An IPv4 tail takes the last four bytes.
ipv4_tail : List ℕ → Option ℕ → Text → Option Parsed
unfolding has_ellipsis
ipv4_tail ip ellipsis s =
    if (has_ellipsis ellipsis || length ip == 12) && leb (length ip + 4) 16
    then elim (parse_ipv4_fields s) [ none ↦ none | some bytes ↦ some (ip ++ bytes, ellipsis, []) ]
    else none

-- The loop over groups of two bytes; `left` groups fit in the sixteen bytes.
groups : ℕ → List ℕ → Option ℕ → Text → Option Parsed
unfolding hex_run after_group starts_dot ipv4_tail
groups zero ip ellipsis s = some (ip, ellipsis, s)
groups (suc left) ip ellipsis s = elim (hex_run 0 0 s) [
  | none ↦ none
  | some (off, acc, rest) ↦
      if off == 0
      then none
      else if starts_dot rest
      then ipv4_tail ip ellipsis s
      else after_group (ip ++ (acc / 256) ∷ (acc % 256) ∷ []) ellipsis rest (groups left)
]

zeros : ℕ → List ℕ
zeros zero = []
zeros (suc n) = 0 ∷ zeros n

-- The whole text must be used, and an ellipsis fills what is missing.
expand : Parsed → Option (List ℕ)
unfolding zeros
expand (ip, ellipsis, _ ∷ _) = none
expand (ip, none, []) = if length ip == 16 then some ip else none
expand (ip, some at, []) =
    if length ip == 16 then none else some (take at ip ++ zeros (16 - length ip) ++ drop at ip)

-- A text may begin with the ellipsis, and may be nothing else.
parse_address : Text → Option (List ℕ)
unfolding groups expand
parse_address s =
    if take 2 s == b':' ∷ b':' ∷ []
    then elim (drop 2 s) [
      | [] ↦ some (zeros 16)
      | c ∷ rest ↦ elim (groups 8 [] (some 0) (c ∷ rest)) [ none ↦ none | some p ↦ expand p ]
    ]
    else elim (groups 8 [] none s) [ none ↦ none | some p ↦ expand p ]

-- `To4` of sixteen bytes.
to_4 : List ℕ → Option (List ℕ)
unfolding zeros
to_4 bytes = if take 12 bytes == zeros 10 ++ 255 ∷ 255 ∷ [] then some (drop 12 bytes) else none

has_zone : Text → Bool
has_zone [] = false
has_zone (c ∷ s) = c == b'%' || has_zone s

-- `net.ParseIP` refuses an address with a zone, and so does the parser where the zone is empty.
unfoldable pub parse_ipv6 : Text → Option (List ℕ)
unfolding parse_address to_4 has_zone text_beq parse_ipv4_fields
parse_ipv6 s =
    if has_zone s then none else elim (parse_address s) [ none ↦ none | some bytes ↦ to_4 bytes ]
