-- ===== src/Smf/Db/Tests.antt =====
-- A store with two sessions.
use pdu_session_sim.Common.{◌≡◌, [], ◌∷◌, Text, text, pos}
use pdu_session_sim.Models.{PduSession}
use pdu_session_sim.Smf.Db.{InMemoryRepository, count_by_status}
use pdu_session_sim.Smf.Db.Counting.{tally, is_active, is_pending, is_failed, count_by_status-tally}
use pdu_session_sim.Smf.Db.Status.{active_status, failed_status}

abbrev session_with : Text → Text → Text → PduSession
session_with ref status reason = record {
  sm_context_ref = ref;
  supi = text "imsi-452040000000001";
  gpsi = text "msisdn-84900000001";
  pdu_session_id = pos 1;
  dnn = text "v-internet";
  sst = pos 1;
  sd = text "000001";
  serving_nf_id = text "2ab2b5a9-68e8-4ee6-b939-024c109b520c";
  an_type = text "3GPP_ACCESS";
  status = status;
  ip_address = text "10.11.22.2";
  failure_reason = reason;
  created_at = 1;
  updated_at = 2;
}

abbrev one : PduSession
one = session_with (text "smctx-1-1") active_status []

abbrev two : PduSession
two = session_with (text "smctx-2-2") failed_status (text "PFCP_TIMEOUT")

abbrev store : InMemoryRepository
store = record { sessions = (text "smctx-1-1", one) ∷ (text "smctx-2-2", two) ∷ [] }

count_by_status-tally_example : count_by_status store ≡ record {
  active = tally is_active store.sessions;
  pending = tally is_pending store.sessions;
  failed = tally is_failed store.sessions;
}
count_by_status-tally_example = count_by_status-tally store
