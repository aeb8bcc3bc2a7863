-- ===== src/Models.antt =====
-- The messages between the network functions and the session record (pkg/models/session.go). JSON
-- encoding is left out: a body is the value that it encodes, and a decoding failure is an error.
use pdu_session_sim.Common.{ℕ, ℤ, Text}

pub record SNssai : Type 0 where
  pub sst : ℤ
  pub sd : Text

pub record CreateSmContextRequest : Type 0 where
  pub supi : Text
  pub gpsi : Text
  pub pdu_session_id : ℤ
  pub dnn : Text
  pub s_nssai : SNssai
  pub serving_nf_id : Text
  pub an_type : Text

pub record CreateSmContextResponse : Type 0 where
  pub sm_context_ref : Text
  pub cause : Text

pub record UpdateSmContextRequest : Type 0 where
  pub an_type : Text
  pub an_type_to_reactivate : Text
  pub up_cnx_state : Text

pub record UpdateSmContextResponse : Type 0 where
  pub up_cnx_state : Text
  pub cause : Text

pub record N1N2MessageTransfer : Type 0 where
  pub pdu_session_id : ℤ
  pub s_nssai : SNssai
  pub dnn : Text
  pub sm_context_ref : Text
  pub status : Text
  pub cause : Text
  pub message : Text

pub record SubscriptionData : Type 0 where
  pub imsi : Text
  pub dnn : Text
  pub s_nssai : SNssai

-- Times are nanoseconds.
pub record PduSession : Type 0 where
  pub sm_context_ref : Text
  pub supi : Text
  pub gpsi : Text
  pub pdu_session_id : ℤ
  pub dnn : Text
  pub sst : ℤ
  pub sd : Text
  pub serving_nf_id : Text
  pub an_type : Text
  pub status : Text
  pub ip_address : Text
  pub failure_reason : Text
  pub created_at : ℕ
  pub updated_at : ℕ
