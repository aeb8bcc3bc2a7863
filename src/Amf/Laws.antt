-- ===== src/Amf/Laws.antt =====
-- The AMF's map of sessions: what each handler writes to it, and what it reads from it.
use pdu_session_sim.Common.{
  ◌≡◌, ◌≢◌, ◌⊎◌, inl, inr, [], false, none, some, Option-cases, Text, text, text_eq, nat_eq, ok,
  Result-cases, Bool-cases, lookup, lookup-insert, lookup-insert_self, ◌==◌, ==_iff, if◌then◌else◌,
  arith,
}
use pdu_session_sim.Http.{Network, http_error, ok_reply, created_json, post_method}
use pdu_session_sim.Models.{CreateSmContextResponse, N1N2MessageTransfer}
use pdu_session_sim.Amf.{
  Handler, TriggerRequest, create_url, create_http_request, trigger, failed_status,
  receive_n1n2_callback,
}

-- A trigger, once its body is decoded, that is answered 201 has stored the reference of the reply for its subscriber, and for no
-- other; one that is answered otherwise has stored nothing.
pub trigger-sessions :
    (net : Network) (t : TriggerRequest) (h : Handler)
    → (((trigger net t h).0 ≡ h) × ((trigger net t h).1.status_code ≢ 201))
      ⊎ ((res : CreateSmContextResponse) × ((trigger net t h).1
            ≡ record { status_code = 201; body = created_json res })
          × ((imsi : Text)
              → lookup imsi (trigger net t h).0.sessions
                ≡ (if t.supi == imsi then some res.sm_context_ref else lookup imsi h.sessions)))
unfolding trigger
trigger-sessions net t h = elim (Option-cases (net.request_error post_method (create_url h))) [
  | inr (e, refused) ↦ inl (ground (arith, refused), ground (arith, refused))
  | inl built ↦ elim (Result-cases (net.respond (create_http_request h t))) [
    | inl (e, unreached) ↦ inl (ground (arith, built, unreached), ground (arith, built, unreached))
    | inr (resp, responds) ↦ elim (Bool-cases (resp.status_code == 201)) [
      | inr other ↦
          inl (ground (arith, built, responds, other), ground (arith, built, responds, other))
      | inl created ↦ elim (Result-cases resp.body.as_created) [
        | inl (e, garbled) ↦ inl (
          ground (arith, built, responds, created, garbled),
          ground (arith, built, responds, created, garbled),
        )
        | inr (res, decoded) ↦ inr (
          res,
          ground (arith, built, responds, created, decoded),
          λ imsi. ground (
            arith,
            built,
            responds,
            created,
            decoded,
            lookup-insert t.supi imsi res.sm_context_ref h.sessions,
          ),
        )
      ]
    ]
  ]
]

module _ (imsi : Text) (n1n2 : N1N2MessageTransfer) (h : Handler) (named : imsi ≢ []) where
  callback_of_live :
      (imsi == []) ≡ false
      → (n1n2.status == failed_status) ≡ false
      → receive_n1n2_callback imsi (ok n1n2) h ≡ (elim (lookup imsi h.sessions) [
        | none ↦ (h, http_error (text "session context not found for IMSI") 404, none)
        | some ref ↦ (h, ok_reply, some ref)
      ])
  unfolding receive_n1n2_callback
  callback_of_live test test' = ground arith

  -- A message for a subscriber that is named, of a session that is not FAILED, is answered 404 where the AMF has no reference for the
  -- subscriber. Otherwise it is answered 200, and the update that follows goes to the reference that the
  -- AMF has, whatever reference the message names. The map stays as it was.
  pub receive_n1n2_callback-active :
      n1n2.status ≢ failed_status
      → ((receive_n1n2_callback imsi (ok n1n2) h).0 ≡ h)
        × (((lookup imsi h.sessions ≡ none)
              × ((receive_n1n2_callback imsi (ok n1n2) h).1
                  ≡ http_error (text "session context not found for IMSI") 404)
              × ((receive_n1n2_callback imsi (ok n1n2) h).2 ≡ none))
            ⊎ ((ref : Text) × (lookup imsi h.sessions ≡ some ref)
                × ((receive_n1n2_callback imsi (ok n1n2) h).1 ≡ ok_reply)
                × ((receive_n1n2_callback imsi (ok n1n2) h).2 ≡ some ref)))
  receive_n1n2_callback-active live =
      let test : (imsi == []) ≡ false = ground (arith, ==_iff imsi []) in
      let test' : (n1n2.status == failed_status) ≡ false =
        ground (arith, ==_iff n1n2.status failed_status) in
      elim (Option-cases (lookup imsi h.sessions)) [
        | inl missing ↦
            let e = callback_of_live test test' in
            (
              ground (arith, e, missing),
              inl (missing, ground (arith, e, missing), ground (arith, e, missing)),
            )
        | inr (ref, found) ↦
            let e = callback_of_live test test' in
            (
              ground (arith, e, found),
              inr (ref, found, ground (arith, e, found), ground (arith, e, found)),
            )
      ]

  -- A message for a subscriber that is named, of a FAILED session, with a reference, is answered 200, and
  -- no update follows; the subscriber has that reference from then on, also if a newer session had
  -- replaced it.
  pub receive_n1n2_callback-failed :
      n1n2.status ≡ failed_status
      → n1n2.sm_context_ref ≢ []
      → ((receive_n1n2_callback imsi (ok n1n2) h).1 ≡ ok_reply)
        × ((receive_n1n2_callback imsi (ok n1n2) h).2 ≡ none)
        × (lookup imsi (receive_n1n2_callback imsi (ok n1n2) h).0.sessions
            ≡ some n1n2.sm_context_ref)
  unfolding receive_n1n2_callback
  receive_n1n2_callback-failed failed ref = ground (
    arith,
    ==_iff imsi [],
    ==_iff n1n2.sm_context_ref [],
    ==_iff n1n2.status failed_status,
    lookup-insert_self imsi n1n2.sm_context_ref h.sessions,
  )
