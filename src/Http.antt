-- ===== src/Http.antt =====
-- What the network functions exchange over HTTP. Go's client and server stand outside: a request that
-- cannot be built, and what comes of one that is sent, are given by `Network`.
use pdu_session_sim.Common.{ℕ, List, Map, Option, Text, text, Result}
use pdu_session_sim.Models.{
  CreateSmContextRequest, CreateSmContextResponse, UpdateSmContextRequest, UpdateSmContextResponse,
  N1N2MessageTransfer, SubscriptionData, PduSession,
}
use pdu_session_sim.Smf.Db.Interface.{Counts}

-- The value that a request's body encodes.
pub data RequestBody : Type 0 where
  no_body : RequestBody
  create_body : CreateSmContextRequest → RequestBody
  update_body : UpdateSmContextRequest → RequestBody
  n1n2_body : N1N2MessageTransfer → RequestBody
  raw_body : Text → RequestBody

pub record HttpRequest : Type 0 where
  pub method : Text
  pub url : Text
  pub body : RequestBody

-- What decoding a response's body yields at each type that the program decodes.
pub record ResponseBody : Type 0 where
  pub as_subscription : Result SubscriptionData
  pub as_created : Result CreateSmContextResponse
  pub as_updated : Result UpdateSmContextResponse

pub record HttpResponse : Type 0 where
  pub status_code : ℕ
  pub status : Text
  pub body : ResponseBody

-- `http.NewRequest` by method and URL, and `Client.Do`.
pub record Network : Type 0 where
  pub request_error : Text → Text → Option Text
  pub respond : HttpRequest → Result HttpResponse

abbrev pub get_method : Text
get_method = text "GET"

abbrev pub post_method : Text
post_method = text "POST"

-- The body of a reply that a handler writes: a text, or the value whose JSON is written.
pub data ReplyBody : Type 0 where
  plain : Text → ReplyBody
  created_json : CreateSmContextResponse → ReplyBody
  updated_json : UpdateSmContextResponse → ReplyBody
  sessions_json : List PduSession → ReplyBody
  stats_json : Counts → Map Text ℕ → ReplyBody
  subscription_json : SubscriptionData → ReplyBody
  error_json : Text → ReplyBody
  copied : ResponseBody → ReplyBody

pub record Reply : Type 0 where
  pub status_code : ℕ
  pub body : ReplyBody

-- `http.Error`.
abbrev pub http_error : Text → ℕ → Reply
http_error message code = record { status_code = code; body = plain message }

-- `w.WriteHeader(http.StatusOK); w.Write([]byte("OK"))`.
abbrev pub ok_reply : Reply
ok_reply = record { status_code = 200; body = plain (text "OK") }
