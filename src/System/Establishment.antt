-- ===== src/System/Establishment.antt =====
-- An establishment with every network function in its part.
use pdu_session_sim.Common.{
  ℕ, ◌<◌, ◌≡◌, false, [], none, some, Text, text_eq, text_beq, ok, lookup, ◌==◌, ==_iff, arith, ap,
  ◌∙◌,
}
use pdu_session_sim.Amf
use pdu_session_sim.Amf.{receive_n1n2_callback}
use pdu_session_sim.Amf.Laws.{receive_n1n2_callback-active}
use pdu_session_sim.Ip.{print_ipv4}
use pdu_session_sim.Models.{SubscriptionData}
use pdu_session_sim.Smf.Db.Interface.{SessionRepository}
use pdu_session_sim.Smf.Orchestrator.Establishment.{
  session_of, udm_query, amf_post, active_message, process_establishment,
}
use pdu_session_sim.Smf.Orchestrator.Establishment.Stages.{Validates}
use pdu_session_sim.Smf.Orchestrator.Establishment.Success.{process_establishment-ok_iff}
use pdu_session_sim.Smf.Orchestrator.State.{Job, World, Surroundings}
use pdu_session_sim.Smf.PfcpClient.Laws.{IsFresh}
use pdu_session_sim.System.{
  upf_exchange, core_network, response_of, Outside, BuildsRequests, route, udm_reply, amf_reply,
  host_of,
}
use pdu_session_sim.Http.{get_method, post_method}
use pdu_session_sim.Routes.{segments, dispatch, udm_routes, amf_routes}
use pdu_session_sim.Routes.Laws.{IsSegment, udm_url-path, amf_url-path, dispatch-udm, dispatch-amf}
use pdu_session_sim.System.Pfcp.{send-upf_accepts}
use pdu_session_sim.Udm.{SubscriberRepository, get_subscription_data}
use pdu_session_sim.Upf

-- What a job meets when the core answers it.
abbrev pub core : SubscriberRepository → Amf.Handler → Upf.Server → Outside → ℕ → Surroundings
core udm amf upf outside now = record {
  network = core_network udm amf outside;
  exchange = upf_exchange upf;
  saved_at = now;
  activated_at = now;
  failed_at = now;
  duration = 0;
}

module _ (udm : SubscriberRepository) (amf : Amf.Handler) (outside : Outside) (supi : Text)
    (segment : IsSegment supi) where
  route-udm :
      route udm amf outside (udm_query supi) ≡ ok (response_of (get_subscription_data udm supi))
  unfolding host_of segments text_beq
  route-udm =
      ap (λ path. udm_reply udm outside (udm_query supi) (dispatch udm_routes get_method path))
        (udm_url-path supi segment)
      ∙ ap (udm_reply udm outside (udm_query supi)) (dispatch-udm supi segment)

  route-amf :
      (ref : Text) (job : Job)
      → route udm amf outside (amf_post ref supi job)
        ≡ ok (response_of (receive_n1n2_callback supi (ok (active_message ref job)) amf).1)
  unfolding host_of segments text_beq
  route-amf ref job =
      ap
        (λ path.
          amf_reply amf outside (amf_post ref supi job) (dispatch amf_routes post_method path))
        (amf_url-path supi segment)
      ∙ ap (amf_reply amf outside (amf_post ref supi job)) (dispatch-amf supi segment)

-- The subscription allows the job.
pub record Allows (sub : SubscriptionData) (job : Job) : Type 0 where
  pub same_dnn : sub.dnn ≡ job.dnn
  pub same_sst : sub.s_nssai.sst ≡ job.sst
  pub same_sd : sub.s_nssai.sd ≡ job.sd

module _ (udm : SubscriberRepository) (amf : Amf.Handler) (upf : Upf.Server) (outside : Outside)
    (supi : Text) (now : ℕ) (job : Job) (segment : IsSegment supi)
    (builds : BuildsRequests outside) where
  -- The SMF's query to the UDM is answered by the subscription.
  pub core-Validates :
      (sub : SubscriptionData)
      → udm.get_subscriber supi ≡ ok sub
      → Allows sub job
      → Validates (core udm amf upf outside now) supi job
  unfolding get_subscription_data
  core-Validates sub found a =
      let test : (supi == []) ≡ false = ground (arith, segment.given, ==_iff supi []) in
      record {
        response = response_of (get_subscription_data udm supi);
        subscription = sub;
        built = builds.udm_request supi segment;
        responds = route-udm udm amf outside supi segment;
        accepted = ground (arith, test, found);
        decoded = ground (arith, test, found);
        same_dnn = a.same_dnn;
        same_sst = a.same_sst;
        same_sd = a.same_sd;
      }

  -- The message to the AMF is answered as its callback handler replies.
  pub core-responds :
      (ref : Text)
      → (core udm amf upf outside now).network.respond (amf_post ref supi job)
        ≡ ok (response_of (receive_n1n2_callback supi (ok (active_message ref job)) amf).1)
  core-responds ref = route-amf udm amf outside supi segment ref job

  module _ {R : Type 0} (repo : SessionRepository R) (w : World R) (fresh : IsFresh w.pfcp)
      (i₀ i₁ i₂ i₃ : ℕ) (h₀ : i₀ < 256) (h₁ : i₁ < 256) (h₂ : i₂ < 256) (h₃ : i₃ < 256) where
    -- The SMF's HTTP requests are routed by host, method and path. With a subscriber whose identity is a
    -- segment of a path and whose subscription allows the job, an AMF that knows the subscriber's session,
    -- a UPF whose answer arrives alone and in time, a PFCP client whose pending channels are ones that it
    -- made, HTTP requests that are built, and a store that saves the session, the establishment of a
    -- session with an address in dotted decimal returns no error.
    pub process_establishment-core :
        (ref known : Text) (sub : SubscriptionData)
        → (repo.save now (session_of ref job) w.store).1 ≡ none
        → udm.get_subscriber supi ≡ ok sub
        → Allows sub job
        → lookup supi amf.sessions ≡ some known
        → (process_establishment repo
            (core udm amf upf outside now)
            ref
            supi
            (print_ipv4 i₀ i₁ i₂ i₃)
            job
            w).1
          ≡ ok tt
    process_establishment-core ref known sub saves found a mapped =
        let (res, done, _, _) = send-upf_accepts w.pfcp upf i₀ i₁ i₂ i₃ h₀ h₁ h₂ h₃ fresh in
        (process_establishment-ok_iff repo (core udm amf upf outside now) ref supi
            (print_ipv4 i₀ i₁ i₂ i₃) job w).1
          (record {
            saves = saves;
            validates = core-Validates sub found a;
            establishes = (res, done);
            transfers = record {
              response =
                  response_of (receive_n1n2_callback supi (ok (active_message ref job)) amf).1;
              built = builds.amf_request supi segment;
              responds = core-responds ref;
              accepted = ground (
                arith,
                mapped,
                receive_n1n2_callback-active supi (active_message ref job) amf segment.given,
              );
            };
          })
