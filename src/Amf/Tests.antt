-- ===== src/Amf/Tests.antt =====
-- A trigger, a callback of an active session and one of a failed session.
use pdu_session_sim.Common.{
  ◌≡◌, ◌≢◌, ◌⊎◌, refl, [], ◌∷◌, none, some, Text, text, text_eq, text_beq, ok, err, lookup, pos,
  ◌==◌, if◌then◌else◌, arith,
}
use pdu_session_sim.Amf.{Handler, failed_status, default_trigger, trigger, receive_n1n2_callback}
use pdu_session_sim.Amf.Laws.{
  trigger-sessions, receive_n1n2_callback-active, receive_n1n2_callback-failed,
}
use pdu_session_sim.Http.{Network, http_error, ok_reply, created_json}
use pdu_session_sim.Models.{CreateSmContextResponse, N1N2MessageTransfer}

abbrev subscriber : Text
subscriber = text "imsi-452040000000001"

abbrev two_sessions : Handler
two_sessions = record {
  sessions = (subscriber, text "smctx-2-2") ∷ [];
  smf_base_url = text "http://smf:8081";
}

abbrev created : CreateSmContextResponse
created = record { sm_context_ref = text "smctx-1-1"; cause = text "REQUEST_ACCEPTED" }

abbrev accepting : Network
accepting = record {
  request_error = λ _ _. none;
  respond = λ _. ok (record {
    status_code = 201;
    status = text "201 Created";
    body = record {
      as_subscription = err (text "EOF");
      as_created = ok created;
      as_updated = err (text "EOF");
    };
  });
}

abbrev message_of : Text → Text → N1N2MessageTransfer
message_of status cause = record {
  pdu_session_id = pos 1;
  s_nssai = record { sst = pos 1; sd = text "000001" };
  dnn = text "v-internet";
  sm_context_ref = text "smctx-1-1";
  status = status;
  cause = cause;
  message = [];
}

abbrev active : N1N2MessageTransfer
active = message_of (text "ACTIVE") (text "REQUEST_ACCEPTED")

abbrev failed : N1N2MessageTransfer
failed = message_of failed_status (text "PFCP_TIMEOUT")

trigger-sessions_example :
    (((trigger accepting default_trigger two_sessions).0 ≡ two_sessions)
      × ((trigger accepting default_trigger two_sessions).1.status_code ≢ 201))
    ⊎ ((res : CreateSmContextResponse) × ((trigger accepting default_trigger two_sessions).1
          ≡ record { status_code = 201; body = created_json res })
        × ((imsi : Text)
            → lookup imsi (trigger accepting default_trigger two_sessions).0.sessions ≡ (
                if default_trigger.supi == imsi
                then some res.sm_context_ref
                else lookup imsi two_sessions.sessions)))
trigger-sessions_example = trigger-sessions accepting default_trigger two_sessions

subscriber_named : subscriber ≢ []
subscriber_named e = ground (arith, e)

active_live : active.status ≢ failed_status
active_live e = ground (arith, e)

-- The update after the older session's message goes to the newer session.
receive_n1n2_callback-active_example :
    ((receive_n1n2_callback subscriber (ok active) two_sessions).0 ≡ two_sessions)
    × (((lookup subscriber two_sessions.sessions ≡ none)
          × ((receive_n1n2_callback subscriber (ok active) two_sessions).1
              ≡ http_error (text "session context not found for IMSI") 404)
          × ((receive_n1n2_callback subscriber (ok active) two_sessions).2 ≡ none))
        ⊎ ((ref : Text) × (lookup subscriber two_sessions.sessions ≡ some ref)
            × ((receive_n1n2_callback subscriber (ok active) two_sessions).1 ≡ ok_reply)
            × ((receive_n1n2_callback subscriber (ok active) two_sessions).2 ≡ some ref)))
receive_n1n2_callback-active_example =
    receive_n1n2_callback-active subscriber active two_sessions subscriber_named active_live

goes_to_newer :
    (receive_n1n2_callback subscriber (ok active) two_sessions).2 ≡ some (text "smctx-2-2")
unfolding receive_n1n2_callback lookup text_beq
goes_to_newer = refl

receive_n1n2_callback-failed_example :
    ((receive_n1n2_callback subscriber (ok failed) two_sessions).1 ≡ ok_reply)
    × ((receive_n1n2_callback subscriber (ok failed) two_sessions).2 ≡ none)
    × (lookup subscriber (receive_n1n2_callback subscriber (ok failed) two_sessions).0.sessions
        ≡ some (text "smctx-1-1"))
receive_n1n2_callback-failed_example =
    receive_n1n2_callback-failed subscriber failed two_sessions subscriber_named refl
      (λ e. ground (arith, e))
