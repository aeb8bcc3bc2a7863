-- ===== src/Udm/Laws.antt =====
-- The subscription handler answers by the store.
use pdu_session_sim.Common.{
  ◌≡◌, ◌≢◌, ◌↔◌, ◌⊎◌, inl, inr, [], Text, text, text_eq, ◌==◌, ==_iff, ok, err, Result-cases,
  Bool-cases, arith,
}
use pdu_session_sim.Http.{subscription_json, error_json}
use pdu_session_sim.Models.{SubscriptionData}
use pdu_session_sim.Udm.{
  SubscriberRepository, get_subscription_data, new_in_memory_subscriber_repository, get_subscriber,
  imsi_1, imsi_2, imsi_3, seed,
}

-- The handler answers 200 with the subscription of the store, 404 where the store has none, and 400
-- where the identity is empty.
pub get_subscription_data-outcome :
    (repo : SubscriberRepository) (imsi : Text)
    → ((imsi ≡ []) × ((get_subscription_data repo imsi).status_code ≡ 400))
      ⊎ ((imsi ≢ [])
          × (sub : SubscriptionData) × (repo.get_subscriber imsi ≡ ok sub)
          × (get_subscription_data repo imsi
              ≡ record { status_code = 200; body = subscription_json sub }))
      ⊎ ((imsi ≢ [])
          × (e : Text) × (repo.get_subscriber imsi ≡ err e)
          × (get_subscription_data repo imsi
              ≡ record { status_code = 404; body = error_json (text "subscriber not found") }))
unfolding get_subscription_data
get_subscription_data-outcome repo imsi = elim (Bool-cases (imsi == [])) [
  | inl empty ↦ inl ((==_iff imsi []).0 empty, ground (arith, empty))
  | inr named ↦
      let ne : imsi ≢ [] = ground (arith, ==_iff imsi []) in
      elim (Result-cases (repo.get_subscriber imsi)) [
        | inl (e, missing) ↦ inr (inr (ne, e, missing, ground (arith, named, missing)))
        | inr (sub, found) ↦ inr (inl (ne, sub, found, ground (arith, named, found)))
      ]
]

-- The seeded store knows exactly the three subscribers of the seed.
pub get_subscriber-seeded :
    (imsi : Text) (sub : SubscriptionData)
    → (get_subscriber imsi new_in_memory_subscriber_repository ≡ ok sub) ↔ (
        (imsi ≡ sub.imsi)
        × ((sub ≡ seed imsi_1 1 (text "000001"))
            ⊎ (sub ≡ seed imsi_2 1 (text "000002"))
            ⊎ (sub ≡ seed imsi_3 2 (text "000003"))))
unfolding get_subscriber new_in_memory_subscriber_repository
get_subscriber-seeded imsi sub =
    ground (arith, ==_iff imsi_1 imsi, ==_iff imsi_2 imsi, ==_iff imsi_3 imsi)
