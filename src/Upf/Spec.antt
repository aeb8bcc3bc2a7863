-- ===== src/Upf/Spec.antt =====
-- What the UPF promises of a packet: the request in it, the sessions as a function of the sequence
-- number, and the answer.
use pdu_session_sim.Common.{
  ℕ, ◌≡◌, List, Option, none, some, ok, err, lookup, ◌==◌, ◌||◌, if◌then◌else◌, get_or, nat_eq,
}
use pdu_session_sim.Pfcp.{PfcpSessionRequest, decode_request}
use pdu_session_sim.Upf.{Server, UpfSession, seq_of, new_session}

-- The request that a packet carries, if it carries one that the UPF serves.
abbrev pub served : List ℕ → Option PfcpSessionRequest
served bytes =
    if get_or bytes 1 0 == 50 || get_or bytes 1 0 == 52
    then elim (decode_request bytes) [ err _ ↦ none | ok req ↦ some req ]
    else none

-- The session under each sequence number.
abbrev pub View : Type 0
View = ℕ → Option UpfSession

abbrev pub view : Server → View
view s seq = lookup seq s.sessions

-- A served request replaces the session under its sequence number, whatever its kind.
abbrev pub after_request : Option PfcpSessionRequest → View → View
after_request none v seq = v seq
after_request (some req) v seq = if seq_of req == seq then some (new_session req) else v seq

-- Every session is stored under its own sequence number.
abbrev pub IsKeyed : Server → Type 0
IsKeyed s = (seq : ℕ) (sess : UpfSession) → lookup seq s.sessions ≡ some sess → sess.seq_num ≡ seq
