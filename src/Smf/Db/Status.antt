-- ===== src/Smf/Db/Status.antt =====
-- The status texts of a session, as the source spells them.
use pdu_session_sim.Common.{Text, text}

abbrev pub active_status : Text
active_status = text "ACTIVE"

abbrev pub pending_status : Text
pending_status = text "PENDING"

abbrev pub creating_status : Text
creating_status = text "CREATING"

abbrev pub failed_status : Text
failed_status = text "FAILED"
