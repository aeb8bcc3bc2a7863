-- ===== src/Smf/Orchestrator/State.antt =====
-- Jobs, counters and what a worker acts on (internal/smf/service.go).
use pdu_session_sim.Common.{ℕ, ◌+◌, ◌%◌, ◌^◌, ℤ, List, Text}
use pdu_session_sim.Http.{HttpRequest, Network}
use pdu_session_sim.Smf.PfcpClient.{PfcpClient, Exchange}

pub data JobType : Type 0 where
  job_establish : JobType
  other_job : Text → JobType

pub record Job : Type 0 where
  pub type : JobType
  pub sm_context_ref : Text
  pub supi : Text
  pub ip_address : Text
  pub pdu_session_id : ℤ
  pub dnn : Text
  pub sst : ℤ
  pub sd : Text
  pub gpsi : Text
  pub serving_nf_id : Text
  pub an_type : Text

-- The counters are 64-bit, and `atomic.AddUint64` wraps.
pub record Metrics : Type 0 where
  pub tps_counter : ℕ
  pub success_counter : ℕ
  pub fail_counter : ℕ
  pub latency_sum : ℕ

abbrev pub add_uint64 : ℕ → ℕ → ℕ
add_uint64 a b = (a + b) % 2 ^ 64

-- What a job changes: the store, the PFCP client, and the HTTP requests sent so far, newest first.
pub record World (R : Type 0) : Type 0 where
  pub store : R
  pub pfcp : PfcpClient
  pub requests : List HttpRequest

-- What a job meets: the HTTP network, the PFCP exchange, what `time.Now` yields at its three writes
-- to the store, and its duration in microseconds.
pub record Surroundings : Type 0 where
  pub network : Network
  pub exchange : List ℕ → Exchange
  pub saved_at : ℕ
  pub activated_at : ℕ
  pub failed_at : ℕ
  pub duration : ℕ
