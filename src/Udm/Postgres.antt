-- ===== src/Udm/Postgres.antt =====
-- `PostgresSubscriberRepository` of internal/udm/db.go, over any pool.
mod Tests
use pdu_session_sim.Common.{
  ℕ, ◌≡◌, ◌≢◌, refl, List, [], ◌∷◌, Bool, ◌&&◌, Text, text, text_eq, text_beq, Result, ok, err, ℤ,
  if◌then◌else◌, arith, ◌==◌, ==_iff, Option, none, some, Option-cases, ◌⊎◌, inl, inr,
}
use pdu_session_sim.Database.{Value, string, integer, select_where, Pool, Row, IsTable}
use pdu_session_sim.Database.Scan.{is_string, is_integer, string_of, integer_of}
use pdu_session_sim.Http.{Reply, subscription_json, error_json}
use pdu_session_sim.Models.{SubscriptionData}
use pdu_session_sim.Udm.{SubscriberRepository, get_subscription_data}

abbrev pub subscribers_table : Text
subscribers_table = text "subscribers"

abbrev pub imsi_column : Text
imsi_column = text "imsi"

abbrev pub subscriber_columns : List Text
subscriber_columns = text "imsi" ∷ text "dnn" ∷ text "sst" ∷ text "sd" ∷ []

-- `Scan` into the fields of a subscription, in the order of the columns.
abbrev pub scan_subscriber : (List Value → Text) → List Value → Result SubscriptionData
scan_subscriber scan_error (imsi ∷ dnn ∷ sst ∷ sd ∷ []) =
    if is_string imsi && is_string dnn && is_integer sst && is_string sd
    then ok (record {
      imsi = string_of imsi;
      dnn = string_of dnn;
      s_nssai = record { sst = integer_of sst; sd = string_of sd };
    })
    else err (scan_error (imsi ∷ dnn ∷ sst ∷ sd ∷ []))
scan_subscriber scan_error values = err (scan_error values)

module _ {D : Type 0} (pool : Pool D) where
  unfoldable pub postgres_get_subscriber : Text → D → Result SubscriptionData
  postgres_get_subscriber imsi d =
      elim (pool.query_row (select_where subscriber_columns subscribers_table imsi_column)
        (string imsi ∷ []) d) [ err e ↦ err e | ok values ↦ scan_subscriber pool.scan_error values ]

  abbrev pub postgres : D → SubscriberRepository
  postgres d = record { get_subscriber = λ imsi. postgres_get_subscriber imsi d }

  -- The subscription that a row holds: `imsi` and the subscription's values, in the columns of these names.
  pub record Describes (r : Row) (sub : SubscriptionData) : Type 0 where
    pub imsi : r imsi_column ≡ string sub.imsi
    pub dnn : r (text "dnn") ≡ string sub.dnn
    pub sst : r (text "sst") ≡ integer sub.s_nssai.sst
    pub sd : r (text "sd") ≡ string sub.s_nssai.sd

  -- Over a pool that answers its selections, with a table of subscribers of the four columns whose rows
  -- hold texts and numbers as the schema says, and for an identity that is not empty: the subscription
  -- handler answers 200 with the subscription that the identity's row describes, or 404 if there is no
  -- such row.
  pub get_subscription_data-postgres :
      {kept : ℕ → ℕ} (t : IsTable kept pool subscribers_table imsi_column subscriber_columns)
      (d : D) (imsi : Text)
      → imsi ≢ []
      → ((r : Row) → t.found imsi d ≡ some r → (sub : SubscriptionData) × Describes r sub)
      → ((r : Row) × (sub : SubscriptionData) × (t.found imsi d ≡ some r)
          × Describes r sub
          × (get_subscription_data (postgres d) imsi
              ≡ record { status_code = 200; body = subscription_json sub }))
        ⊎ ((t.found imsi d ≡ none)
            × (get_subscription_data (postgres d) imsi
                ≡ record { status_code = 404; body = error_json (text "subscriber not found") }))
  unfolding get_subscription_data postgres_get_subscriber text_beq
  get_subscription_data-postgres t d imsi given holds = elim (Option-cases (t.found imsi d)) [
    | inl missing ↦ inr (
      missing,
      ground (arith, t.selected_none subscriber_columns imsi d refl missing, ==_iff imsi []),
    )
    | inr (r, at) ↦
        let (sub, says) = holds r at in
        inl (
          r,
          sub,
          at,
          says,
          ground (
            arith,
            t.selected subscriber_columns imsi d r refl at,
            says.imsi,
            says.dnn,
            says.sst,
            says.sd,
            ==_iff imsi [],
          ),
        )
  ]
