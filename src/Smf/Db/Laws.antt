-- ===== src/Smf/Db/Laws.antt =====
-- The store in memory keeps the laws of the interface.
use pdu_session_sim.Common.{
  ◌≡◌, ◌≢◌, refl, ◌↔◌, text, none, Text, err, lookup, lookup-insert, lookup-insert_self, ==_iff,
  text_eq, arith, inl, inr, Option-cases,
}
use pdu_session_sim.Models.{PduSession}
use pdu_session_sim.Smf.Db.Interface.{Updates, IsRepository, IsReliable}
use pdu_session_sim.Smf.Db.{
  InMemoryRepository, in_memory, get_session, save_session, stamp, update_found, with_status,
  with_reason, with_ip, update_session_status, update_session_status_with_reason,
  update_session_status_and_ip,
}

update_found-Updates :
    (ref : Text) (change : PduSession → PduSession)
    → Updates in_memory ref change (update_found change ref)
unfolding update_found get_session
update_found-Updates ref change = record {
  changed = λ r s found none_failed. ground (arith, lookup-insert_self ref (change s) r.sessions);
  kept = λ r other ne. elim (Option-cases (lookup ref r.sessions)) [
    | inl missing ↦ ground arith
    | inr (s, found) ↦
        ground (arith, lookup-insert ref other (change s) r.sessions, ==_iff ref other)
  ];
}

-- The store in memory is a repository: a saved session is found with its times, an update that
-- reports no error changes the session under its reference, and nothing else changes.
pub in_memory-IsRepository : IsRepository (λ now. now) in_memory
unfolding save_session get_session update_session_status update_session_status_with_reason
    update_session_status_and_ip
in_memory-IsRepository = record {
  saved =
      λ now s r done. ground (arith, lookup-insert_self s.sm_context_ref (stamp now s) r.sessions);
  saved_other = λ now s r other ne. ground (
    arith,
    lookup-insert s.sm_context_ref other (stamp now s) r.sessions,
    ==_iff s.sm_context_ref other,
  );
  status_updates = λ ref status now. update_found-Updates ref (with_status status now);
  reason_updates =
      λ ref status reason now. update_found-Updates ref (with_reason status reason now);
  ip_updates = λ ref status ip now. update_found-Updates ref (with_ip status ip now);
}

-- In memory an update fails exactly on a missing session, and then changes nothing.
pub update_found-fails_iff :
    (ref : Text) (change : PduSession → PduSession) (r : InMemoryRepository)
    → ((update_found change ref r).1 ≢ none) ↔ (get_session ref r ≡ err (text "session not found"))
unfolding update_found get_session
update_found-fails_iff ref change r = ground arith

-- The store in memory never fails to save, nor to update a session that is there.
pub in_memory-IsReliable : IsReliable in_memory
unfolding save_session get_session update_session_status_with_reason update_session_status_and_ip
    update_found
in_memory-IsReliable = record {
  saves = λ now s r. refl;
  updates_reason = λ ref status reason now r s found. ground arith;
  updates_ip = λ ref status ip now r s found. ground arith;
}
