-- ===== src/System/Core/Client.antt =====
-- What the SMF's PFCP client keeps of the responses that it was given (internal/smf/pfcp_client.go).
use pdu_session_sim.Common.{
  ℕ, ◌<◌, ◌≡◌, inl, inr, subst, ◌∙◌, List, Option, none, some, Option-cases, ok, lookup,
  lookup-insert_cases, lookup-delete_cases, nat_eq, arith,
}
use pdu_session_sim.Pfcp.{PfcpSessionResponse, decode_response}
use pdu_session_sim.Smf.Concurrent.Places.{set_self, set_other}
use pdu_session_sim.Smf.Concurrent.Service.{set}
use pdu_session_sim.Smf.PfcpClient.{
  PfcpClient, offer, handle_response, register, unregister, next_seq,
}
use pdu_session_sim.Smf.PfcpClient.Correlation.{seq_of}

-- Each channel has an owner, a sequence number: the number that it is pending under, and that of the
-- response in it. Of each response's number something is known.
pub record Correlated (Known : ℕ → Type 0) (owner : ℕ → ℕ) (c : PfcpClient) : Type 0 where
  pub held :
      (ch : ℕ) (res : PfcpSessionResponse)
      → lookup ch c.channels ≡ some (some res)
      → (owner ch ≡ seq_of res) × Known (seq_of res)
  pub made :
      (ch : ℕ) (b : Option PfcpSessionResponse)
      → lookup ch c.channels ≡ some b
      → ch < c.next_channel
  pub routed :
      (seq ch : ℕ) → lookup seq c.pending ≡ some ch → (owner ch ≡ seq) × (ch < c.next_channel)

module _ {Known : ℕ → Type 0} {owner : ℕ → ℕ} where
  pub Correlated-imp :
      {Known' : ℕ → Type 0} (c : PfcpClient)
      → ((seq : ℕ) → Known seq → Known' seq)
      → Correlated Known owner c
      → Correlated Known' owner c
  Correlated-imp c more k = record {
    held = λ ch res h. let (own, known) = k.held ch res h in (own, more (seq_of res) known);
    made = k.made;
    routed = k.routed;
  }

  pub next_seq-Correlated :
      (c : PfcpClient) → Correlated Known owner c → Correlated Known owner (next_seq c)
  unfolding next_seq
  next_seq-Correlated c k = record { held = k.held; made = k.made; routed = k.routed }

  pub unregister-Correlated :
      (seq : ℕ) (c : PfcpClient)
      → Correlated Known owner c
      → Correlated Known owner (unregister seq c)
  unfolding unregister
  unregister-Correlated seq c k = record {
    held = k.held;
    made = k.made;
    routed = λ s ch h. k.routed s ch (lookup-delete_cases seq s ch c.pending h).1;
  }

  pub register-Correlated :
      (seq : ℕ) (c : PfcpClient)
      → Correlated Known owner c
      → Correlated Known (set owner c.next_channel seq) (register seq c)
  unfolding register
  register-Correlated seq c k = record {
    held = λ ch res h. elim (lookup-insert_cases c.next_channel ch none (some res) c.channels h) [
      | inl (_, e) ↦ absurd (ground (arith, e))
      | inr (ne, old) ↦
          let (own, known) = k.held ch res old in
          (set_other owner c.next_channel ch seq ne ∙ own, known)
    ];
    made = λ ch b h. elim (lookup-insert_cases c.next_channel ch none b c.channels h) [
      | inl (e, _) ↦ omega (arith, e)
      | inr (ne, old) ↦ omega (arith, k.made ch b old)
    ];
    routed = λ s ch h. elim (lookup-insert_cases seq s c.next_channel ch c.pending h) [
      | inl (e, e') ↦ (ground (arith, e, e', set_self owner c.next_channel seq), omega (arith, e'))
      | inr (ne, old) ↦
          let (own, below) = k.routed s ch old in
          (
            set_other owner c.next_channel ch seq (λ e. omega (arith, e, below)) ∙ own,
            omega (arith, below),
          )
    ];
  }

  offer-Correlated :
      (ch : ℕ) (res : PfcpSessionResponse) (c : PfcpClient)
      → owner ch ≡ seq_of res
      → Known (seq_of res)
      → Correlated Known owner c
      → Correlated Known owner (offer ch res c)
  unfolding offer
  offer-Correlated ch res c own known k = elim (Option-cases (lookup ch c.channels)) [
    | inl missing ↦ rw (missing, offer) k
    | inr (some full, at) ↦ rw (at, offer) k
    | inr (none, at) ↦
        rw (at, offer)
          (record {
            held = λ j r h. elim (lookup-insert_cases ch j (some res) (some r) c.channels h) [
              | inl (e, e') ↦
                  let same : seq_of res ≡ seq_of r = ground (arith, e') in
                  (ground (arith, e, own, same), subst Known same known)
              | inr (_, old) ↦ k.held j r old
            ];
            made = λ j b h. elim (lookup-insert_cases ch j (some res) b c.channels h) [
              | inl (e, _) ↦ omega (arith, e, k.made ch none at)
              | inr (_, old) ↦ k.made j b old
            ];
            routed = k.routed;
          })
  ]

  pub handle_response-Correlated :
      (bytes : List ℕ) (res : PfcpSessionResponse) (c : PfcpClient)
      → decode_response bytes ≡ ok res
      → Known (seq_of res)
      → Correlated Known owner c
      → Correlated Known owner (handle_response bytes c)
  unfolding handle_response
  handle_response-Correlated bytes res c decoded known k =
      elim (Option-cases (lookup (seq_of res) c.pending)) [
        | inl missed ↦ rw (decoded, missed, handle_response) k
        | inr (ch, at) ↦
            rw (decoded, at, handle_response)
              (offer-Correlated ch res c (k.routed (seq_of res) ch at).0 known k)
      ]

pub handle_response-counters :
    (bytes : List ℕ) (c : PfcpClient)
    → ((handle_response bytes c).seq_counter ≡ c.seq_counter)
      × ((handle_response bytes c).next_channel ≡ c.next_channel)
unfolding handle_response offer
handle_response-counters bytes c = ground arith
