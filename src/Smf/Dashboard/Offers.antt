-- ===== src/Smf/Dashboard/Offers.antt =====
-- What a broadcast does to one client's channel (`start` of internal/smf/dashboard.go).
use pdu_session_sim.Common.{
  ℕ, ◌≡◌, refl, ◌∙◌, [], ◌∷◌, ◌++◌, Bool, Bool-cases, none, some, Option-cases, Text, Map, lookup,
  insert, delete, lookup-insert, lookup-delete, ltb, length, nat_eq, ◌==◌, ==_iff, if◌then◌else◌,
  arith, inl, inr,
}
use pdu_session_sim.Smf.Dashboard.{Channel, client_capacity, offer, offer_all}

-- No client is there twice.
abbrev pub AreDistinct : Map ℕ Bool → Type 0
AreDistinct [] = Unit
AreDistinct ((client, _) ∷ rest) = (lookup client rest ≡ none) × AreDistinct rest

pub insert-AreDistinct :
    (client : ℕ) (b : Bool) (clients : Map ℕ Bool)
    → AreDistinct clients
    → AreDistinct (insert client b clients)
unfolding insert lookup
insert-AreDistinct client b [] d = (refl, tt)
insert-AreDistinct client b ((other, old) ∷ rest) (new, d) = elim (Bool-cases (other == client)) [
  | inl same ↦ rw (same, insert) (ground (arith, same, new, ==_iff other client), d)
  | inr differ ↦
      rw (differ, insert)
        (
          ground (
            arith,
            new,
            differ,
            lookup-insert client other b rest,
            ==_iff client other,
            ==_iff other client,
          ),
          insert-AreDistinct client b rest d,
        )
]

pub delete-AreDistinct :
    (client : ℕ) (clients : Map ℕ Bool) → AreDistinct clients → AreDistinct (delete client clients)
unfolding delete
delete-AreDistinct client [] d = tt
delete-AreDistinct client ((other, old) ∷ rest) (new, d) = elim (Bool-cases (other == client)) [
  | inl same ↦ rw (same, delete) (delete-AreDistinct client rest d)
  | inr differ ↦
      rw (differ, delete)
        (ground (arith, new, lookup-delete client other rest), delete-AreDistinct client rest d)
]

-- A channel that was offered a message: it takes it where it has room.
abbrev pub offered : Text → Channel → Channel
offered message c = record c {
  buffer = if ltb (length c.buffer) client_capacity then c.buffer ++ message ∷ [] else c.buffer;
}

offer-offered :
    (message : Text) (c c' : Channel) → offer message c ≡ some c' → c' ≡ offered message c
offer-offered message c c' e = elim (Bool-cases (ltb (length c.buffer) client_capacity)) [
  | inl room ↦ ground (arith, room, e)
  | inr full ↦ ground (arith, full, e)
]

offer_all-first :
    (message : Text) (client : ℕ) (b : Bool) (rest : Map ℕ Bool)
    (channels channels' : Map ℕ Channel)
    → offer_all message ((client, b) ∷ rest) channels ≡ some channels'
    → (c : Channel) × (lookup client channels ≡ some c)
      × (offer_all message rest (insert client (offered message c) channels) ≡ some channels')
unfolding offer_all
offer_all-first message client b rest channels channels' e =
    elim (Option-cases (lookup client channels)) [
      | inl unknown ↦ absurd (ground (arith, unknown, e))
      | inr (c, at) ↦ elim (Option-cases (offer message c)) [
        | inl refused ↦ absurd (ground (arith, at, refused, e))
        | inr (c', sent) ↦ (c, at, ground (arith, at, sent, e, offer-offered message c c' sent))
      ]
    ]

-- A channel that is none of the clients' is left alone.
pub offer_all-unlisted :
    (message : Text) (clients : Map ℕ Bool) (channels channels' : Map ℕ Channel) (client : ℕ)
    → lookup client clients ≡ none
    → offer_all message clients channels ≡ some channels'
    → lookup client channels' ≡ lookup client channels
unfolding offer_all lookup
offer_all-unlisted message [] channels channels' client away e = ground (arith, e)
offer_all-unlisted message ((k, b) ∷ rest) channels channels' client away e =
    let (c, at, others) = offer_all-first message k b rest channels channels' e in
    let next = insert k (offered message c) channels in
    elim (Bool-cases (k == client)) [
      | inl same ↦ absurd (ground (arith, same, away))
      | inr differ ↦
          offer_all-unlisted message rest next channels' client (ground (arith, differ, away))
            others
          ∙ ground (arith, differ, lookup-insert k client (offered message c) channels)
    ]

-- A client's channel is offered the message once.
pub offer_all-listed :
    (message : Text) (clients : Map ℕ Bool) (channels channels' : Map ℕ Channel) (client : ℕ)
    (b : Bool) (c : Channel)
    → AreDistinct clients
    → lookup client clients ≡ some b
    → offer_all message clients channels ≡ some channels'
    → lookup client channels ≡ some c
    → lookup client channels' ≡ some (offered message c)
unfolding offer_all lookup
offer_all-listed message [] channels channels' client b c d listed e at =
    absurd (ground (arith, listed))
offer_all-listed message ((k, v) ∷ rest) channels channels' client b c (new, d) listed e at =
    let (first, at_first, others) = offer_all-first message k v rest channels channels' e in
    let next = insert k (offered message first) channels in
    elim (Bool-cases (k == client)) [
      | inl same ↦
          let eq : k ≡ client = (==_iff k client).0 same in
          offer_all-unlisted message rest next channels' client (ground (arith, eq, new)) others
          ∙ ground (
            arith,
            same,
            eq,
            at,
            at_first,
            lookup-insert k client (offered message first) channels,
          )
      | inr differ ↦
          offer_all-listed message rest next channels' client b c d (ground (arith, differ, listed))
            others
            (ground (arith, differ, at, lookup-insert k client (offered message first) channels))
    ]
