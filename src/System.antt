-- ===== src/System.antt =====
-- The network functions wired together: what the SMF meets when the UDM, the UPF and the AMF of this
-- repository answer it (internal/smf/service.go with internal/udm, internal/upf and internal/amf).
pub mod Pfcp
pub mod Establishment
pub mod Race
pub mod Core
pub mod Samples
mod Tests
use pdu_session_sim.Common.{
  ℕ, List, [], ◌∷◌, Bool, false, Option, none, some, Text, text, text_eq, text_beq, Result, ok, err,
  ◌==◌, ◌++◌, nat_eq, if◌then◌else◌, ◌≡◌,
}
use pdu_session_sim.Amf
use pdu_session_sim.Decimal.{decimal}
use pdu_session_sim.Http.{
  HttpRequest, HttpResponse, Network, Reply, ReplyBody, RequestBody, subscription_json, n1n2_body,
  get_method, post_method,
}
use pdu_session_sim.Models.{SubscriptionData}
use pdu_session_sim.Routes
use pdu_session_sim.Routes.{
  segments, path_of, dispatch, handled, udm_routes, amf_routes, UdmRoute, AmfRoute,
  get_subscription_data, receive_n1n2_callback,
}
use pdu_session_sim.Routes.Laws.{IsSegment}
use pdu_session_sim.Smf.Orchestrator.Establishment.{udm_url, amf_url}
use pdu_session_sim.Smf.PfcpClient.{Exchange}
use pdu_session_sim.Udm
use pdu_session_sim.Udm.{SubscriberRepository}
use pdu_session_sim.Upf
use pdu_session_sim.Upf.{handle_packet}

-- The UPF's answer arrives, and nothing else; no write fails and no timer fires first.
abbrev pub answers : Option (List ℕ) → List (List ℕ)
answers none = []
answers (some answer) = answer ∷ []

abbrev pub upf_exchange : Upf.Server → List ℕ → Exchange
upf_exchange s bytes = record {
  write_error = none;
  arrived = answers (handle_packet s bytes).1;
  expired = false;
}

-- A subscription is decoded from the JSON that the UDM writes.
abbrev pub subscription_in : ReplyBody → Result SubscriptionData
subscription_in (subscription_json sub) = ok sub
subscription_in _ = err (text "not a subscription")

-- `http.StatusText`, at the codes that the handlers reply with.
unfoldable pub status_text : ℕ → Text
status_text code =
    if code == 200
    then text "OK"
    else if code == 201
    then text "Created"
    else if code == 400
    then text "Bad Request"
    else if code == 404
    then text "Not Found"
    else if code == 500
    then text "Internal Server Error"
    else if code == 503
    then text "Service Unavailable"
    else []

unfoldable pub status_line : ℕ → Text
unfolding decimal status_text
status_line code = decimal code ++ (text " " ++ status_text code)

-- A reply as the client reads it.
abbrev pub response_of : Reply → HttpResponse
response_of r = record {
  status_code = r.status_code;
  status = status_line r.status_code;
  body = record {
    as_subscription = subscription_in r.body;
    as_created = err (text "not a context");
    as_updated = err (text "not an update");
  };
}

-- The host that a URL names: after the scheme, and nothing.
unfoldable pub host_of : Text → Text
unfolding segments
host_of url = elim (segments url) [ scheme ∷ nothing ∷ host ∷ path ↦ host | _ ↦ [] ]

-- What `net/http` does with the requests that these handlers do not see: the error of building one, and
-- the answer of any other host, of the other routes, and of a mux that redirects the request or has no
-- pattern for it.
pub record Outside : Type 0 where
  pub request_error : Text → Text → Option Text
  pub elsewhere : HttpRequest → Result HttpResponse

abbrev pub udm_reply :
    SubscriberRepository → Outside → HttpRequest → Routes.Outcome UdmRoute → Result HttpResponse
udm_reply udm o req (handled get_subscription_data (imsi ∷ _)) =
    ok (response_of (Udm.get_subscription_data udm imsi))
udm_reply udm o req _ = o.elsewhere req

abbrev pub callback_reply : Amf.Handler → Outside → HttpRequest → Text → Result HttpResponse
callback_reply amf o req imsi = elim req.body [
  | n1n2_body m ↦ ok (response_of (Amf.receive_n1n2_callback imsi (ok m) amf).1)
  | _ ↦ o.elsewhere req
]

abbrev pub amf_reply :
    Amf.Handler → Outside → HttpRequest → Routes.Outcome AmfRoute → Result HttpResponse
amf_reply amf o req (handled receive_n1n2_callback (imsi ∷ _)) = callback_reply amf o req imsi
amf_reply amf o req _ = o.elsewhere req

-- The hosts and the ports of the compose file; each mux reads the method and the path.
abbrev pub route : SubscriberRepository → Amf.Handler → Outside → HttpRequest → Result HttpResponse
route udm amf o req =
    let host = host_of req.url in
    let path = path_of req.url in
    if host == text "udm:8082"
    then udm_reply udm o req (dispatch udm_routes req.method path)
    else if host == text "amf:8080"
    then amf_reply amf o req (dispatch amf_routes req.method path)
    else o.elsewhere req

abbrev pub core_network : SubscriberRepository → Amf.Handler → Outside → Network
core_network udm amf o = record { request_error = o.request_error; respond = route udm amf o }

-- A request is built for the two URLs of an identity that is a segment of a path.
pub record BuildsRequests (o : Outside) : Type 0 where
  pub udm_request :
      (supi : Text) → IsSegment supi → o.request_error get_method (udm_url supi) ≡ none
  pub amf_request :
      (supi : Text) → IsSegment supi → o.request_error post_method (amf_url supi) ≡ none
