-- ===== src/Decimal/Laws.antt =====
-- Decimal texts: digits only, and the number can be read back.
use pdu_session_sim.Common.{
  ℕ, zero, suc, ◌+◌, ◌/◌, ◌%◌, ◌<◌, ◌≤◌, ◌≡◌, ap, [], ◌∷◌, Text, All, some, arith,
}
use pdu_session_sim.Config.Atoi.{digits_value}
use pdu_session_sim.Decimal.{digits_before, decimal}

-- A digit put in front of a text is read first.
digits_value-digits_before :
    (rounds n : ℕ) (rest : Text)
    → n < rounds
    → digits_value 0 (digits_before rounds n rest) ≡ digits_value n rest
unfolding digits_before digits_value
digits_value-digits_before zero n rest h = absurd (omega arith)
digits_value-digits_before (suc rounds) n rest h =
    ground (arith, digits_value-digits_before rounds (n / 10) ((48 + n % 10) ∷ rest))

-- Reading a decimal text gives the number back.
pub digits_value-decimal : (n : ℕ) → digits_value 0 (decimal n) ≡ some n
unfolding decimal digits_value
digits_value-decimal n = digits_value-digits_before (suc n) n [] (omega arith)

pub decimal-injective : (m n : ℕ) → decimal m ≡ decimal n → m ≡ n
decimal-injective m n e = cc (digits_value-decimal m, digits_value-decimal n, ap (digits_value 0) e)

abbrev pub AreDigits : Text → Type 0
AreDigits = All (λ c. (b'0' ≤ c) × (c ≤ b'9'))

digits_before-AreDigits :
    (rounds n : ℕ) (rest : Text) → AreDigits rest → AreDigits (digits_before rounds n rest)
unfolding digits_before
digits_before-AreDigits zero n rest h = h
digits_before-AreDigits (suc rounds) n rest h =
    ground (arith, digits_before-AreDigits rounds (n / 10) ((48 + n % 10) ∷ rest))

pub decimal-AreDigits : (n : ℕ) → AreDigits (decimal n)
unfolding decimal
decimal-AreDigits n = digits_before-AreDigits (suc n) n [] tt
