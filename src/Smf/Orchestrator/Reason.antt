-- ===== src/Smf/Orchestrator/Reason.antt =====
-- How a worker names the reason of a failure: `contains`, `indexString` and the switch of `worker`
-- (internal/smf/service.go).
pub mod Laws
use pdu_session_sim.Common.{
  ℕ, zero, suc, ◌+◌, ◌-◌, List, [], ◌∷◌, ◌++◌, Bool, true, false, ◌&&◌, ◌||◌, Text, text, text_beq,
  text_eq, ◌==◌, ltb, leb, if◌then◌else◌, length, take, drop, nat_eq, Option, none, some,
}

-- The rounds of the loop of `indexString` from position `i`; `none` is -1.
unfoldable pub index_from : ℕ → ℕ → Text → Text → Option ℕ
unfolding text_beq
index_from zero i s substr = none
index_from (suc rounds) i s substr =
    let later = index_from rounds (i + 1) s substr in
    if take (length substr) (drop i s) == substr then some i else later

-- The loop runs while `i <= len(s) - len(substr)`, which may be negative.
unfoldable pub index_string : Text → Text → Option ℕ
unfolding index_from
index_string s substr = index_from (length s + 1 - length substr) 0 s substr

abbrev pub is_found : Option ℕ → Bool
is_found none = false
is_found (some _) = true

unfoldable pub contains : Text → Text → Bool
unfolding index_string text_beq
contains s substr =
    leb (length substr) (length s)
    && (s == substr || length substr == 0 || (ltb 0 (length s) && is_found (index_string s substr)))

abbrev pub pfcp_timeout : Text
pfcp_timeout = text "PFCP_TIMEOUT"

abbrev pub n1n2_failed : Text
n1n2_failed = text "N1N2_FAILED"

abbrev pub db_error : Text
db_error = text "DB_ERROR"

abbrev pub e2e_establishment_failed : Text
e2e_establishment_failed = text "E2E_ESTABLISHMENT_FAILED"

unfoldable pub reason_of : Text → Text
reason_of err_msg =
    if contains err_msg (text "PFCP") || contains err_msg (text "timeout waiting for PFCP")
    then pfcp_timeout
    else if contains err_msg (text "N1N2") || contains err_msg (text "AMF responded")
    then n1n2_failed
    else if contains err_msg (text "database")
        || contains err_msg (text "db")
        || contains err_msg (text "scan")
    then db_error
    else e2e_establishment_failed
