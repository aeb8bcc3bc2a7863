-- ===== src/System/Samples.antt =====
-- A subscriber of the seed, a job of that subscriber, and the network functions around it.
use pdu_session_sim.Common.{
  ◌≡◌, refl, [], ◌∷◌, Text, text, text_eq, pos, ok, err, none, lookup, arith, nat_eq,
}
use pdu_session_sim.Amf
use pdu_session_sim.Ip.{print_ipv4}
use pdu_session_sim.Models.{CreateSmContextRequest, SubscriptionData}
use pdu_session_sim.Smf.Db.{InMemoryRepository, new_in_memory_repository}
use pdu_session_sim.Smf.Orchestrator.State.{Job, job_establish, Metrics, World, Surroundings}
use pdu_session_sim.Smf.PfcpClient.{new_client}
use pdu_session_sim.Smf.PfcpClient.Laws.{IsFresh}
use pdu_session_sim.Routes.Laws.{IsSegment}
use pdu_session_sim.System.{Outside, BuildsRequests}
use pdu_session_sim.System.Establishment.{core, Allows}
use pdu_session_sim.Udm.{
  SubscriberRepository, in_memory, new_in_memory_subscriber_repository, get_subscriber, imsi_1,
  seed,
}
use pdu_session_sim.Upf.{Server, new_server}

abbrev pub sample_udm : SubscriberRepository
sample_udm = in_memory new_in_memory_subscriber_repository

abbrev pub sample_ref : Text
sample_ref = text "smctx-1-1"

abbrev pub knowing_amf : Amf.Handler
knowing_amf = record { sessions = (imsi_1, sample_ref) ∷ []; smf_base_url = text "http://smf:8081" }

abbrev pub unknowing_amf : Amf.Handler
unknowing_amf = record { sessions = []; smf_base_url = text "http://smf:8081" }

abbrev pub sample_upf : Server
sample_upf = new_server

abbrev pub sample_address : Text
sample_address = print_ipv4 10 11 22 2

abbrev pub sample_job : Job
sample_job = record {
  type = job_establish;
  sm_context_ref = sample_ref;
  supi = imsi_1;
  ip_address = sample_address;
  pdu_session_id = pos 1;
  dnn = text "v-internet";
  sst = pos 1;
  sd = text "000001";
  gpsi = text "msisdn-84900000001";
  serving_nf_id = text "2ab2b5a9-68e8-4ee6-b939-024c109b520c";
  an_type = text "3GPP_ACCESS";
}

abbrev pub sample_request : CreateSmContextRequest
sample_request = record {
  supi = sample_job.supi;
  gpsi = sample_job.gpsi;
  pdu_session_id = pos 1;
  dnn = sample_job.dnn;
  s_nssai = record { sst = pos 1; sd = sample_job.sd };
  serving_nf_id = sample_job.serving_nf_id;
  an_type = sample_job.an_type;
}

abbrev pub sample_subscription : SubscriptionData
sample_subscription = seed imsi_1 1 (text "000001")

abbrev pub sample_world : World InMemoryRepository
sample_world = record { store = new_in_memory_repository; pfcp = new_client; requests = [] }

abbrev pub sample_metrics : Metrics
sample_metrics = record { tps_counter = 0; success_counter = 0; fail_counter = 0; latency_sum = 0 }

abbrev pub sample_outside : Outside
sample_outside = record {
  request_error = λ method url. none;
  elsewhere = λ req. err (text "no such host");
}

pub sample-BuildsRequests : BuildsRequests sample_outside
sample-BuildsRequests = record {
  udm_request = λ supi segment. refl;
  amf_request = λ supi segment. refl;
}

abbrev pub sample_core : Surroundings
sample_core = core sample_udm knowing_amf sample_upf sample_outside 7

-- The same, with an AMF that has not stored the session.
abbrev pub early_core : Surroundings
early_core = core sample_udm unknowing_amf sample_upf sample_outside 7

pub new_client-IsFresh : IsFresh new_client
unfolding new_client lookup
new_client-IsFresh = record { below = λ seq ch h. ground (arith, h) }

pub sample_found : sample_udm.get_subscriber imsi_1 ≡ ok sample_subscription
unfolding get_subscriber new_in_memory_subscriber_repository
sample_found = refl

pub sample-Allows : Allows sample_subscription sample_job
sample-Allows = record { same_dnn = refl; same_sst = refl; same_sd = refl }

pub imsi_1-IsSegment : IsSegment imsi_1
imsi_1-IsSegment = record {
  plain = ground arith;
  given = λ e. ground (arith, e);
  no_dot = λ e. ground (arith, e);
  no_dots = λ e. ground (arith, e);
}
