-- ===== src/Ip/Tests.antt =====
-- Addresses that `net.ParseIP` accepts and refuses, and the round trip at the first address.
use pdu_session_sim.Common.{◌≡◌, refl, [], ◌∷◌, some, none, text}
use pdu_session_sim.Ip.{parse_ip4}

dotted : parse_ip4 (text "10.11.22.1") ≡ some (10 ∷ 11 ∷ 22 ∷ 1 ∷ [])
unfolding parse_ip4
dotted = refl

mapped : parse_ip4 (text "::ffff:10.11.22.1") ≡ some (10 ∷ 11 ∷ 22 ∷ 1 ∷ [])
unfolding parse_ip4
mapped = refl

mapped_hex : parse_ip4 (text "::ffff:0a0b:1601") ≡ some (10 ∷ 11 ∷ 22 ∷ 1 ∷ [])
unfolding parse_ip4
mapped_hex = refl

too_short : parse_ip4 (text "10.11.22") ≡ none
unfolding parse_ip4
too_short = refl

not_mapped : parse_ip4 (text "1:2:3:4:5:6:7:8") ≡ none
unfolding parse_ip4
not_mapped = refl
