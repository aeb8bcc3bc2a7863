-- ===== src/Ip/Laws.antt =====
-- Printing four bytes as an address and parsing it back.
use pdu_session_sim.Common.{
  false, ◌∙◌, length, ℕ, ◌<◌, ◌≡◌, refl, List, [], ◌∷◌, ◌++◌, some, Text, arith,
}
use pdu_session_sim.Ip.{print_octet, print_ipv4, parse_by, parse_ip4}
use pdu_session_sim.Ip.Fields.{is_empty, fields_from, parse_ipv4_fields}

-- An octet that a dot and more text follow is read whole.
fields_from-octet :
    (fs : List ℕ) (a : ℕ) (rest : Text)
    → a < 256
    → length fs < 3
    → is_empty rest ≡ false
    → fields_from 0 0 fs (print_octet a ++ (b'.' ∷ rest)) ≡ fields_from 0 0 (fs ++ a ∷ []) rest
unfolding fields_from print_octet
fields_from-octet fs a rest h k r = ground arith

-- The last octet ends the text.
fields_from-last :
    (fs : List ℕ) (a : ℕ)
    → a < 256
    → length fs ≡ 3
    → fields_from 0 0 fs (print_octet a) ≡ some (fs ++ a ∷ [])
unfolding fields_from print_octet
fields_from-last fs a h k = ground arith

parse_by-octet :
    (s rest : Text) (a : ℕ)
    → a < 256
    → parse_by s (print_octet a ++ (b'.' ∷ rest)) ≡ parse_ipv4_fields s
unfolding parse_by print_octet
parse_by-octet s rest a h = ground arith

is_empty-print_octet : (a : ℕ) (rest : Text) → is_empty (print_octet a ++ rest) ≡ false
unfolding print_octet
is_empty-print_octet a rest = ground arith

is_empty-last_octet : (a : ℕ) → is_empty (print_octet a) ≡ false
unfolding print_octet
is_empty-last_octet a = ground arith

-- Four octets of a byte each, in decimal and with dots between them, are read back.
pub parse_ip4-print_ipv4 :
    (a b c d : ℕ)
    → a < 256
    → b < 256
    → c < 256
    → d < 256
    → parse_ip4 (print_ipv4 a b c d) ≡ some (a ∷ b ∷ c ∷ d ∷ [])
unfolding parse_ip4 print_ipv4
parse_ip4-print_ipv4 a b c d ha hb hc hd =
    parse_by-octet (print_ipv4 a b c d) _ a ha
    ∙ fields_from-octet [] a _ ha (omega arith) (is_empty-print_octet b _)
    ∙ fields_from-octet (a ∷ []) b _ hb (omega arith) (is_empty-print_octet c _)
    ∙ fields_from-octet (a ∷ b ∷ []) c _ hc (omega arith) (is_empty-last_octet d)
    ∙ fields_from-last (a ∷ b ∷ c ∷ []) d hd refl
