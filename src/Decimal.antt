-- ===== src/Decimal.antt =====
-- A natural number in decimal, as `%d` of Go's `fmt` prints it.
pub mod Laws
use pdu_session_sim.Common.{ℕ, zero, suc, ◌+◌, ◌/◌, ◌%◌, List, [], ◌∷◌, Text, ltb, if◌then◌else◌}

-- The digits are put before those that are there; the number of rounds bounds that of the digits.
unfoldable pub digits_before : ℕ → ℕ → Text → Text
digits_before zero n rest = rest
digits_before (suc rounds) n rest =
    let more = digits_before rounds (n / 10) ((48 + n % 10) ∷ rest) in
    if ltb n 10 then (48 + n) ∷ rest else more

-- A number has no more than `n + 1` digits.
unfoldable pub decimal : ℕ → Text
unfolding digits_before
decimal n = digits_before (suc n) n []
