-- ===== src/Udm.antt =====
-- The UDM (internal/udm): the subscriber store in memory and the subscription handler.
pub mod Laws
pub mod Postgres
mod Tests
use pdu_session_sim.Common.{
  ℕ, List, [], ◌∷◌, Option, none, some, ℤ, pos, Text, text, text_eq, text_beq, Result, ok, err, Map,
  lookup, insert, ◌==◌, if◌then◌else◌,
}
use pdu_session_sim.Http.{Reply, http_error, subscription_json, error_json}
use pdu_session_sim.Models.{SubscriptionData}

-- `SubscriberRepository` of internal/udm/db.go.
pub record SubscriberRepository : Type 0 where
  pub get_subscriber : Text → Result SubscriptionData

pub record InMemorySubscriberRepository : Type 0 where
  pub subscribers : Map Text SubscriptionData

abbrev pub imsi_1 : Text
imsi_1 = text "imsi-452040000000001"

abbrev pub imsi_2 : Text
imsi_2 = text "imsi-452040000000002"

abbrev pub imsi_3 : Text
imsi_3 = text "imsi-452040000000003"

abbrev pub seed : Text → ℕ → Text → SubscriptionData
seed imsi sst sd = record {
  imsi = imsi;
  dnn = text "v-internet";
  s_nssai = record { sst = pos sst; sd = sd };
}

unfoldable pub new_in_memory_subscriber_repository : InMemorySubscriberRepository
unfolding insert text_beq
new_in_memory_subscriber_repository = record {
  subscribers = insert imsi_3 (seed imsi_3 2 (text "000003")) (
      insert imsi_2 (seed imsi_2 1 (text "000002"))
        (insert imsi_1 (seed imsi_1 1 (text "000001")) []));
}

unfoldable pub get_subscriber : Text → InMemorySubscriberRepository → Result SubscriptionData
unfolding lookup text_beq
get_subscriber imsi r = elim (lookup imsi r.subscribers) [
  | none ↦ err (text "subscriber not found")
  | some sub ↦ ok sub
]

abbrev pub in_memory : InMemorySubscriberRepository → SubscriberRepository
in_memory r = record { get_subscriber = λ imsi. get_subscriber imsi r }

-- The handler, given the path value `imsi`.
unfoldable pub get_subscription_data : SubscriberRepository → Text → Reply
unfolding text_beq
get_subscription_data repo imsi =
    if imsi == []
    then http_error (text "IMSI is required") 400
    else elim (repo.get_subscriber imsi) [
      | err _ ↦ record { status_code = 404; body = error_json (text "subscriber not found") }
      | ok sub ↦ record { status_code = 200; body = subscription_json sub }
    ]
