-- ===== src/Config/Atoi.antt =====
-- `strconv.Atoi` for a 64-bit `int`.
use pdu_session_sim.Common.{
  ℕ, zero, suc, ◌+◌, ◌-◌, ◌*◌, ◌^◌, [], ◌∷◌, Bool, true, false, ◌&&◌, ℤ, pos, negsuc, Option, none,
  some, Text, text, Result, ok, err, leb, ltb, ◌==◌, if◌then◌else◌, nat_eq,
}

abbrev pub is_digit : ℕ → Bool
is_digit c = leb b'0' c && leb c b'9'

-- The value of a text of digits, read on from a value.
unfoldable pub digits_value : ℕ → Text → Option ℕ
digits_value acc [] = some acc
digits_value acc (c ∷ s) =
    let rest = digits_value (acc * 10 + (c - b'0')) s in if is_digit c then rest else none

abbrev syntax_error : Text
syntax_error = text "invalid syntax"

abbrev range_error : Text
range_error = text "value out of range"

abbrev as_negative : ℕ → ℤ
as_negative zero = pos 0
as_negative (suc n) = negsuc n

-- At least one digit, and nothing else.
unfoldable pub unsigned : Text → Option ℕ
unfolding digits_value
unsigned [] = none
unsigned (c ∷ s) = digits_value 0 (c ∷ s)

unfoldable pub in_range : Bool → Option ℕ → Result ℤ
in_range negative none = err syntax_error
in_range true (some n) = if leb n (2 ^ 63) then ok (as_negative n) else err range_error
in_range false (some n) = if ltb n (2 ^ 63) then ok (pos n) else err range_error

unfoldable pub atoi : Text → Result ℤ
unfolding unsigned in_range
atoi [] = err syntax_error
atoi (c ∷ s) =
    if c == b'-'
    then in_range true (unsigned s)
    else if c == b'+'
    then in_range false (unsigned s)
    else in_range false (unsigned (c ∷ s))
