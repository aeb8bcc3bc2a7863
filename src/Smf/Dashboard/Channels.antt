-- ===== src/Smf/Dashboard/Channels.antt =====
-- The channels of the dashboard's clients, and the loop that sends to them (internal/smf/dashboard.go).
use pdu_session_sim.Common.{
  ℕ, ◌≤◌, ◌≡◌, refl, [], ◌∷◌, ◌++◌, Bool, true, Bool-cases, some, Text, Map, lookup, insert,
  lookup-insert, lookup-insert_cases, ltb, length, length-append, nat_eq, ◌==◌, ==_iff, arith, inl,
  inr,
}
use pdu_session_sim.Smf.Dashboard.{
  Channel, DashboardHub, init_dashboard_hub, client_capacity, broadcast_capacity, offer, offer_all,
}

abbrev pub IsOpenAt : Map ℕ Channel → ℕ → Type 0
IsOpenAt channels client = (c : Channel) × (lookup client channels ≡ some c) × (c.is_open ≡ true)

-- Every client of the list has an open channel.
abbrev pub AreOpen : Map ℕ Bool → Map ℕ Channel → Type 0
AreOpen clients channels =
    (client : ℕ) (b : Bool) → lookup client clients ≡ some b → IsOpenAt channels client

-- No channel holds more than its capacity.
abbrev pub AreBounded : Map ℕ Channel → Type 0
AreBounded channels =
    (client : ℕ) (c : Channel) → lookup client channels ≡ some c → length c.buffer ≤ client_capacity

-- Every client has an open channel, and no buffer holds more than its capacity.
pub record IsSound (h : DashboardHub) : Type 0 where
  pub are_open : AreOpen h.clients h.channels
  pub are_bounded : AreBounded h.channels
  pub queue_bounded : length h.broadcast ≤ broadcast_capacity

-- One client's channel after another has been put in its place.
pub IsOpenAt-insert :
    (channels : Map ℕ Channel) (client k : ℕ) (c : Channel)
    → c.is_open ≡ true
    → IsOpenAt channels client
    → IsOpenAt (insert k c channels) client
IsOpenAt-insert channels client k c alive (d, at, lives') = elim (Bool-cases (k == client)) [
  | inl same ↦ (c, ground (arith, same, lookup-insert k client c channels), alive)
  | inr other ↦ (d, ground (arith, other, at, lookup-insert k client c channels), lives')
]

pub AreBounded-insert :
    (channels : Map ℕ Channel) (k : ℕ) (c : Channel)
    → length c.buffer ≤ client_capacity
    → AreBounded channels
    → AreBounded (insert k c channels)
AreBounded-insert channels k c small bounded client d at =
    elim (lookup-insert_cases k client c d channels at) [
      | inl (_, same) ↦ ground (arith, same)
      | inr (_, before) ↦ bounded client d before
    ]

pub init_dashboard_hub-IsSound : IsSound init_dashboard_hub
unfolding init_dashboard_hub lookup
init_dashboard_hub-IsSound = record {
  are_open = λ client b found. absurd (ground (arith, found));
  are_bounded = λ client c found. absurd (ground (arith, found));
  queue_bounded = omega arith;
}

-- What an offer leaves of an open channel.
offer_of_open :
    (message : Text) (c : Channel)
    → c.is_open ≡ true
    → length c.buffer ≤ client_capacity
    → (c' : Channel) × (offer message c ≡ some c')
      × (c'.is_open ≡ true)
      × (length c'.buffer ≤ client_capacity)
offer_of_open message c alive small = elim (Bool-cases (ltb (length c.buffer) client_capacity)) [
  | inl room ↦ (
    record c { buffer = c.buffer ++ message ∷ [] },
    ground (arith, alive, room),
    alive,
    ground (arith, room, length-append c.buffer (message ∷ [])),
  )
  | inr full ↦ (c, ground (arith, alive, full), alive, small)
]

lookup-tail :
    (k client : ℕ) (v b : Bool) (rest : Map ℕ Bool)
    → lookup client rest ≡ some b
    → (b' : Bool) × (lookup client ((k, v) ∷ rest) ≡ some b')
unfolding lookup
lookup-tail k client v b rest found = elim (Bool-cases (k == client)) [
  | inl same ↦ (v, ground (arith, same))
  | inr other ↦ (b, ground (arith, other, found))
]

lookup-head : (k : ℕ) (v : Bool) (rest : Map ℕ Bool) → lookup k ((k, v) ∷ rest) ≡ some v
unfolding lookup
lookup-head k v rest = ground (arith, ==_iff k k)

-- The loop over clients that are open ends, closes none and overfills none.
pub offer_all-AreOpen :
    (message : Text) (clients : Map ℕ Bool) (channels : Map ℕ Channel)
    → AreOpen clients channels
    → AreBounded channels
    → (channels' : Map ℕ Channel) × (offer_all message clients channels ≡ some channels')
      × ((client : ℕ) → IsOpenAt channels client → IsOpenAt channels' client)
      × AreBounded channels'
unfolding offer_all
offer_all-AreOpen message [] channels alive bounded = (channels, refl, λ client at. at, bounded)
offer_all-AreOpen message ((k, v) ∷ rest) channels alive bounded =
    let (c, at, c_open) = alive k v (lookup-head k v rest) in
    let (c', sent, lives', small') = offer_of_open message c c_open (bounded k c at) in
    let (channels', done, keeps, bounded') =
      offer_all-AreOpen message rest (insert k c' channels)
        (λ client b found.
          let (b', there) = lookup-tail k client v b rest found in
          IsOpenAt-insert channels client k c' lives' (alive client b' there))
        (AreBounded-insert channels k c' small' bounded) in
    (
      channels',
      ground (arith, at, sent, done),
      λ client before. keeps client (IsOpenAt-insert channels client k c' lives' before),
      bounded',
    )
