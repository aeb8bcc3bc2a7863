-- ===== src/Routes/Tests.antt =====
-- The calls for a subscriber of the seed.
use pdu_session_sim.Common.{◌≡◌, refl, [], ◌∷◌, All, Text, text, text_eq, text_beq, arith}
use pdu_session_sim.Amf
use pdu_session_sim.Amf.{create_url, modify_url}
use pdu_session_sim.Http.{get_method, post_method}
use pdu_session_sim.Routes.{
  path_of, dispatch, choose, is_clean, match_pieces, segments, handled, redirected,
  method_not_allowed, not_found, smf_routes, amf_routes, udm_routes, create_sm_context,
  update_sm_context, trigger_establishment, receive_n1n2_callback, get_subscription_data,
  dashboard_stream, dashboard_files,
}
use pdu_session_sim.Routes.Laws.{
  IsHostChar, context_ref-IsSegment, base_url, host_port, dispatch-calls,
}
use pdu_session_sim.Decimal.{decimal}
use pdu_session_sim.System.Samples.{imsi_1-IsSegment}
use pdu_session_sim.Smf.Handler.{trigger_url, context_ref}
use pdu_session_sim.Smf.Orchestrator.Establishment.{udm_url, amf_url}
use pdu_session_sim.Udm.{imsi_1}

stream_before_files :
    dispatch smf_routes get_method (text "dashboard" ∷ text "stream" ∷ [])
    ≡ handled dashboard_stream []
unfolding dispatch choose is_clean match_pieces text_beq
stream_before_files = refl

files_below :
    dispatch smf_routes get_method (text "dashboard" ∷ text "css" ∷ text "a" ∷ [])
    ≡ handled dashboard_files []
unfolding dispatch choose is_clean match_pieces text_beq
files_below = refl

dashboard_redirected : dispatch smf_routes get_method (text "dashboard" ∷ []) ≡ redirected
unfolding dispatch choose is_clean match_pieces text_beq
dashboard_redirected = refl

nowhere_found : dispatch smf_routes get_method (text "metrics" ∷ []) ≡ not_found
unfolding dispatch choose is_clean match_pieces text_beq
nowhere_found = refl

wrong_method : dispatch smf_routes post_method (text "health" ∷ []) ≡ method_not_allowed
unfolding dispatch choose is_clean match_pieces text_beq
wrong_method = refl

dots_redirected : dispatch udm_routes get_method (path_of (udm_url (text ".."))) ≡ redirected
unfolding dispatch choose is_clean match_pieces path_of segments text_beq
dots_redirected = refl

slash_lost : dispatch udm_routes get_method (path_of (udm_url (text "a/b"))) ≡ not_found
unfolding dispatch choose is_clean match_pieces path_of segments text_beq
slash_lost = refl

smf-IsHostChar : All IsHostChar (text "smf")
smf-IsHostChar = ground arith

abbrev amf_handler : Amf.Handler
amf_handler = record { sessions = []; smf_base_url = base_url (host_port (text "smf") 8081) }

smf_base : amf_handler.smf_base_url ≡ text "http://smf:8081"
unfolding decimal
smf_base = refl

abbrev first_ref : Text
first_ref = context_ref 7 1

dispatch-calls_example :
    (dispatch udm_routes get_method (path_of (udm_url imsi_1))
      ≡ handled get_subscription_data (imsi_1 ∷ []))
    × (dispatch amf_routes post_method (path_of (amf_url imsi_1))
        ≡ handled receive_n1n2_callback (imsi_1 ∷ []))
    × (dispatch smf_routes post_method (path_of (create_url amf_handler))
        ≡ handled create_sm_context [])
    × (dispatch smf_routes post_method (path_of (modify_url amf_handler first_ref))
        ≡ handled update_sm_context (first_ref ∷ []))
    × (dispatch amf_routes post_method (path_of trigger_url) ≡ handled trigger_establishment [])
dispatch-calls_example =
    dispatch-calls imsi_1 first_ref (text "smf") 8081 amf_handler imsi_1-IsSegment
      (context_ref-IsSegment 7 1) refl (λ e. ground (arith, e)) (omega arith) smf-IsHostChar
