-- ===== src/Smf/Orchestrator/Task.antt =====
-- A worker's actions: they change the world and may return an error.
use pdu_session_sim.Common.{
  ℕ, List, ◌∷◌, ◌++◌, Bool, true, false, Text, Option, none, some, Result, ok, err,
}
use pdu_session_sim.Http.{HttpRequest, HttpResponse, RequestBody, Network}
use pdu_session_sim.Pfcp.{PfcpSessionResponse}
use pdu_session_sim.Smf.Orchestrator.State.{World}
use pdu_session_sim.Smf.PfcpClient.{Exchange, send_session_establishment_request}

abbrev pub Task : Type 0 → Type 0 → Type 0
Task R A = World R → World R × Result A

abbrev pub prefix_error : {A : Type 0} → Text → Result A → Result A
prefix_error said (ok a) = ok a
prefix_error said (err e) = err (said ++ e)

abbrev pub outcome_of : Option Text → Result (Unit {0})
outcome_of none = ok tt
outcome_of (some e) = err e

module _ {R : Type 0} where
  infixl 5 ◌>>=◌ ◌>>◌
  abbrev pub ◌>>=◌ : {A B : Type 0} → Task R A → (A → Task R B) → Task R B
  ◌>>=◌ m f w = let (w', r) = m w in elim r [ err e ↦ (w', err e) | ok a ↦ f a w' ]

  abbrev pub ◌>>◌ : {A B : Type 0} → Task R A → Task R B → Task R B
  m >> k = m >>= λ _. k

  -- `fmt.Errorf` with `%w` at its end.
  abbrev pub wrap : {A : Type 0} → Text → Task R A → Task R A
  wrap said m w = let (w', r) = m w in (w', prefix_error said r)

  -- `if test { return fmt.Errorf(…) }`.
  abbrev pub refuse : Bool → Text → Task R (Unit {0})
  refuse true e w = (w, err e)
  refuse false e w = (w, ok tt)

  abbrev pub pure : {A : Type 0} → Result A → Task R A
  pure r w = (w, r)

  -- A method of the store whose error is returned, and one whose error is ignored.
  abbrev pub in_store : (R → R × Option Text) → Task R (Unit {0})
  in_store op w = let (r, e) = op w.store in (record w { store = r }, outcome_of e)

  abbrev pub in_store_ignored : (R → R × Option Text) → Task R (Unit {0})
  in_store_ignored op w = (record w { store = (op w.store).0 }, ok tt)

  abbrev pub new_request : Network → Text → Text → RequestBody → Task R HttpRequest
  new_request net method url body w = elim (net.request_error method url) [
    | some e ↦ (w, err e)
    | none ↦ (w, ok (record { method = method; url = url; body = body }))
  ]

  abbrev pub send : Network → HttpRequest → Task R HttpResponse
  send net req w = (record w { requests = req ∷ w.requests }, net.respond req)

  abbrev pub send_pfcp : (List ℕ → Exchange) → Text → Task R PfcpSessionResponse
  send_pfcp exchange ip w =
      let (c, r) = send_session_establishment_request exchange ip w.pfcp in
      (record w { pfcp = c }, r)
