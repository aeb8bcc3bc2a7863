-- ===== src/Udm/Postgres/Tests.antt =====
-- The first subscriber of the seed, in a table (migrations/001_init.sql).
use pdu_session_sim.Common.{
  ◌≡◌, ◌⊎◌, [], ◌∷◌, none, some, text, subst, text_eq, text_beq, refl, pos, lookup, arith,
}
use pdu_session_sim.Database.{Row, string, integer, null, assign}
use pdu_session_sim.Database.Sample.{Table, table_pool, sample_table}
use pdu_session_sim.Http.{subscription_json, error_json}
use pdu_session_sim.Models.{SubscriptionData}
use pdu_session_sim.System.Samples.{imsi_1-IsSegment}
use pdu_session_sim.Udm.{get_subscription_data, imsi_1, seed}
use pdu_session_sim.Udm.Postgres.{
  subscribers_table, imsi_column, subscriber_columns, postgres, Describes,
  get_subscription_data-postgres,
}

abbrev first_row : Row
first_row =
    assign subscriber_columns
      (string imsi_1 ∷ string (text "v-internet") ∷ integer (pos 1) ∷ string (text "000001") ∷ [])
      (λ column. null)

abbrev subscribers : Table
subscribers = (imsi_1, first_row) ∷ []

abbrev first_subscription : SubscriptionData
first_subscription = seed imsi_1 1 (text "000001")

first_row-Describes :
    Describes (table_pool subscribers_table imsi_column) first_row first_subscription
unfolding text_beq
first_row-Describes = record { imsi = refl; dnn = refl; sst = refl; sd = refl }

subscribers-Describes :
    (r : Row)
    → lookup imsi_1 subscribers ≡ some r
    → (sub : SubscriptionData) × Describes (table_pool subscribers_table imsi_column) r sub
unfolding lookup text_beq
subscribers-Describes r at =
    let same : first_row ≡ r = ground (arith, at) in
    (
      first_subscription,
      subst (λ row. Describes (table_pool subscribers_table imsi_column) row first_subscription)
          same first_row-Describes,
    )

get_subscription_data-postgres_example :
    ((r : Row) × (sub : SubscriptionData) × (lookup imsi_1 subscribers ≡ some r)
      × Describes (table_pool subscribers_table imsi_column) r sub
      × (get_subscription_data
            (postgres (table_pool subscribers_table imsi_column) subscribers)
            imsi_1
          ≡ record { status_code = 200; body = subscription_json sub }))
    ⊎ ((lookup imsi_1 subscribers ≡ none)
        × (get_subscription_data
              (postgres (table_pool subscribers_table imsi_column) subscribers)
              imsi_1
            ≡ record { status_code = 404; body = error_json (text "subscriber not found") }))
unfolding sample_table lookup
get_subscription_data-postgres_example =
    get_subscription_data-postgres (table_pool subscribers_table imsi_column)
      (sample_table subscribers_table imsi_column subscriber_columns) subscribers imsi_1
      imsi_1-IsSegment.given subscribers-Describes
