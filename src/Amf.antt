-- ===== src/Amf.antt =====
-- The AMF (internal/amf/handler.go): which session each subscriber has, the trigger, the N1N2
-- callback and the update that follows it.
pub mod Laws
mod Tests
use pdu_session_sim.Common.{
  ℕ, ◌+◌, List, [], ◌∷◌, ◌++◌, Bool, true, false, not, Option, none, some, ℤ, pos, Text, text,
  text_eq, text_beq, Result, ok, err, Map, lookup, insert, ◌==◌, if◌then◌else◌, nat_eq,
}
use pdu_session_sim.Http.{
  HttpRequest, HttpResponse, Network, Reply, http_error, ok_reply, post_method, create_body,
  update_body, created_json,
}
use pdu_session_sim.Models.{
  CreateSmContextRequest, CreateSmContextResponse, UpdateSmContextRequest, N1N2MessageTransfer,
}

pub record Handler : Type 0 where
  pub sessions : Map Text Text
  pub smf_base_url : Text

unfoldable pub new_handler : Text → Handler
new_handler smf_base_url = record { sessions = []; smf_base_url = smf_base_url }

pub record TriggerRequest : Type 0 where
  pub supi : Text
  pub gpsi : Text
  pub pdu_session_id : ℤ
  pub dnn : Text
  pub sst : ℤ
  pub sd : Text

-- The fields that a JSON body gives; decoding leaves the others as they were.
pub record TriggerBody : Type 0 where
  pub supi : Option Text
  pub gpsi : Option Text
  pub pdu_session_id : Option ℤ
  pub dnn : Option Text
  pub sst : Option ℤ
  pub sd : Option Text

abbrev pub default_trigger : TriggerRequest
default_trigger = record {
  supi = text "imsi-452040000000001";
  gpsi = text "msisdn-84900000001";
  pdu_session_id = pos 1;
  dnn = text "v-internet";
  sst = pos 1;
  sd = text "000001";
}

abbrev given : {A : Type 0} → Option A → A → A
given none default = default
given (some a) default = a

abbrev pub decode_onto : TriggerBody → TriggerRequest → TriggerRequest
decode_onto b t = record {
  supi = given b.supi t.supi;
  gpsi = given b.gpsi t.gpsi;
  pdu_session_id = given b.pdu_session_id t.pdu_session_id;
  dnn = given b.dnn t.dnn;
  sst = given b.sst t.sst;
  sd = given b.sd t.sd;
}

abbrev pub create_request : TriggerRequest → CreateSmContextRequest
create_request t = record {
  supi = t.supi;
  gpsi = t.gpsi;
  pdu_session_id = t.pdu_session_id;
  dnn = t.dnn;
  s_nssai = record { sst = t.sst; sd = t.sd };
  serving_nf_id = text "2ab2b5a9-68e8-4ee6-b939-024c109b520c";
  an_type = text "3GPP_ACCESS";
}

abbrev pub create_url : Handler → Text
create_url h = h.smf_base_url ++ text "/nsmf-pdusession/v1/sm-contexts"

abbrev pub create_http_request : Handler → TriggerRequest → HttpRequest
create_http_request h t = record {
  method = post_method;
  url = create_url h;
  body = create_body (create_request t);
}

-- `errRes` keeps its zero fields where the body does not decode.
abbrev pub error_response : Result CreateSmContextResponse → CreateSmContextResponse
error_response (ok res) = res
error_response (err _) = record { sm_context_ref = []; cause = [] }

-- What follows the SMF's response.
unfoldable pub finish_trigger : TriggerRequest → HttpResponse → Handler → Handler × Reply
unfolding insert text_beq
finish_trigger t resp h =
    if resp.status_code == 201
    then elim resp.body.as_created [
      | err _ ↦ (h, http_error (text "failed to parse SMF response") 500)
      | ok res ↦ (
        record h { sessions = insert t.supi res.sm_context_ref h.sessions },
        record { status_code = 201; body = created_json res },
      )
    ]
    else (
      h,
      record {
        status_code = resp.status_code;
        body = created_json (error_response resp.body.as_created);
      },
    )

-- The call of the SMF.
unfoldable pub trigger : Network → TriggerRequest → Handler → Handler × Reply
unfolding finish_trigger
trigger net t h = elim (net.request_error post_method (create_url h)) [
  | some e ↦ (h, http_error e 500)
  | none ↦ elim (net.respond (create_http_request h t)) [
    | err e ↦ (h, http_error (text "SMF communication failed: " ++ e) 503)
    | ok resp ↦ finish_trigger t resp h
  ]
]

-- The handler; there is no body where the content length is not positive.
unfoldable pub trigger_establishment :
    Network → Option (Result TriggerBody) → Handler → Handler × Reply
unfolding trigger
trigger_establishment net none h = trigger net default_trigger h
trigger_establishment net (some (err _)) h = (h, http_error (text "invalid JSON body") 400)
trigger_establishment net (some (ok b)) h = trigger net (decode_onto b default_trigger) h

abbrev pub failed_status : Text
failed_status = text "FAILED"

-- A failure names the session's reference, if it is not empty.
abbrev note_failure : Text → N1N2MessageTransfer → Handler → Handler
note_failure imsi n1n2 h =
    if n1n2.sm_context_ref == []
    then h
    else record h { sessions = insert imsi n1n2.sm_context_ref h.sessions }

-- The handler of the callback: with the reply comes the reference for the update that a goroutine
-- triggers later, if it does.
unfoldable pub receive_n1n2_callback :
    Text → Result N1N2MessageTransfer → Handler → Handler × Reply × Option Text
unfolding lookup insert text_beq
receive_n1n2_callback imsi body h =
    if imsi == []
    then (h, http_error (text "IMSI parameter is required") 400, none)
    else elim body [
      | err _ ↦ (h, http_error (text "invalid request body") 400, none)
      | ok n1n2 ↦
          if n1n2.status == failed_status
          then (note_failure imsi n1n2 h, ok_reply, none)
          else elim (lookup imsi h.sessions) [
            | none ↦ (h, http_error (text "session context not found for IMSI") 404, none)
            | some ref ↦ (h, ok_reply, some ref)
          ]
    ]

abbrev pub modify_url : Handler → Text → Text
modify_url h ref =
    h.smf_base_url ++ (text "/nsmf-pdusession/v1/sm-contexts/" ++ (ref ++ text "/modify"))

abbrev pub modify_http_request : Handler → Text → HttpRequest
modify_http_request h ref = record {
  method = post_method;
  url = modify_url h ref;
  body = update_body (record {
    an_type = text "3GPP_ACCESS";
    an_type_to_reactivate = text "3GPP_ACCESS";
    up_cnx_state = text "ACTIVATED";
  });
}

-- The update: the request that is sent, if it can be built, and whether the SMF's answer lets the AMF
-- log the session as established.
unfoldable pub trigger_update_sm_context : Network → Handler → Text → Option HttpRequest × Bool
trigger_update_sm_context net h ref = elim (net.request_error post_method (modify_url h ref)) [
  | some _ ↦ (none, false)
  | none ↦ elim (net.respond (modify_http_request h ref)) [
    | err _ ↦ (some (modify_http_request h ref), false)
    | ok resp ↦ (
      some (modify_http_request h ref),
      if resp.status_code == 200
          then (elim resp.body.as_updated [ err _ ↦ false | ok _ ↦ true ])
          else false,
    )
  ]
]
