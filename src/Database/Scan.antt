-- ===== src/Database/Scan.antt =====
-- What a `Scan` puts into a destination (internal/smf/db.go, internal/udm/db.go).
use pdu_session_sim.Common.{ℕ, ℤ, pos, [], Bool, true, false, Text}
use pdu_session_sim.Database.{Value, string, integer, time}

-- `Scan` into a `string`, an `int` and a `time.Time`.
abbrev pub is_string : Value → Bool
is_string (string _) = true
is_string _ = false

abbrev pub is_integer : Value → Bool
is_integer (integer _) = true
is_integer _ = false

abbrev pub is_time : Value → Bool
is_time (time _) = true
is_time _ = false

abbrev pub string_of : Value → Text
string_of (string s) = s
string_of _ = []

abbrev pub integer_of : Value → ℤ
integer_of (integer n) = n
integer_of _ = pos 0

abbrev pub time_of : Value → ℕ
time_of (time t) = t
time_of _ = 0
