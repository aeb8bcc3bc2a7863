-- ===== src/Smf/PfcpClient/Laws.antt =====
-- What a call of the client returns, and what it leaves behind.
use pdu_session_sim.Common.{
  ℕ, ◌<◌, ◌≡◌, ◌≢◌, refl, ap, ◌∙◌, List, [], ◌∷◌, Option, none, some, Text, false, Result, ok, err,
  lookup, lookup-insert, lookup-insert_self, lookup-delete, inl, inr, Result-cases, Option-cases,
  arith, nat_eq, ◌==◌, if◌then◌else◌,
}
use pdu_session_sim.Pfcp.{PfcpSessionResponse, decode_response, encode_request}
use pdu_session_sim.Smf.PfcpClient.{
  PfcpClient, Exchange, offer, handle_response, register, unregister, deliver, accept, await,
  next_seq, transact, rejected, timed_out, send_session_establishment_request,
}

-- The first of the datagrams that decodes to a response with the sequence number.
abbrev pub with_seq : ℕ → Result PfcpSessionResponse → Option PfcpSessionResponse
with_seq seq (err _) = none
with_seq seq (ok res) = if res.header.sequence_number == seq then some res else none

abbrev or_else :
    Option PfcpSessionResponse → Option PfcpSessionResponse → Option PfcpSessionResponse
or_else (some a) later = some a
or_else none later = later

unfoldable pub first_answer : ℕ → List (List ℕ) → Option PfcpSessionResponse
first_answer seq [] = none
first_answer seq (bytes ∷ rest) =
    or_else (with_seq seq (decode_response bytes)) (first_answer seq rest)

-- The channels in `pending` are those that were made.
pub record IsFresh (c : PfcpClient) : Type 0 where
  pub below : (seq ch : ℕ) → lookup seq c.pending ≡ some ch → ch < c.next_channel

-- The channel is the one under the sequence number, and under no other, and holds what it is given.
record Waits (seq ch : ℕ) (buffer : Option PfcpSessionResponse) (c : PfcpClient) : Type 0 where
  own : lookup seq c.pending ≡ some ch
  only : (k : ℕ) → lookup k c.pending ≡ some ch → k ≡ seq
  holds : lookup ch c.channels ≡ some buffer

pending-handle_response :
    (bytes : List ℕ) (c : PfcpClient) → (handle_response bytes c).pending ≡ c.pending
unfolding handle_response offer
pending-handle_response bytes c = ground arith

pending-deliver :
    (arrived : List (List ℕ)) (c : PfcpClient) → (deliver arrived c).pending ≡ c.pending
unfolding deliver
pending-deliver [] c = refl
pending-deliver (bytes ∷ rest) c =
    pending-deliver rest (handle_response bytes c) ∙ pending-handle_response bytes c

handle_response-holds :
    (seq ch : ℕ) (buffer : Option PfcpSessionResponse) (bytes : List ℕ) (c : PfcpClient)
    → Waits seq ch buffer c
    → lookup ch (handle_response bytes c).channels
      ≡ some (or_else buffer (with_seq seq (decode_response bytes)))
unfolding handle_response offer
handle_response-holds seq ch buffer bytes c w = elim (Result-cases (decode_response bytes)) [
  | inl (_, e) ↦ ground (arith, w.holds)
  | inr (res, e) ↦ elim (Option-cases (lookup res.header.sequence_number c.pending)) [
    | inl missed ↦ ground (arith, w.holds, w.own, missed)
    | inr (j, found) ↦ ground (
      arith,
      w.holds,
      w.own,
      found,
      w.only res.header.sequence_number,
      lookup-insert j ch (some res) c.channels,
    )
  ]
]

handle_response-Waits :
    (seq ch : ℕ) (buffer : Option PfcpSessionResponse) (bytes : List ℕ) (c : PfcpClient)
    → Waits seq ch buffer c
    → Waits seq ch (or_else buffer (with_seq seq (decode_response bytes))) (handle_response bytes c)
handle_response-Waits seq ch buffer bytes c w = record {
  own = rw (pending-handle_response bytes c) w.own;
  only = λ k h. w.only k (rw (pending-handle_response bytes c) at h);
  holds = handle_response-holds seq ch buffer bytes c w;
}

or_else_assoc :
    (a b c : Option PfcpSessionResponse) → or_else (or_else a b) c ≡ or_else a (or_else b c)
or_else_assoc none b c = refl
or_else_assoc (some a) b c = refl

deliver-holds :
    (seq ch : ℕ) (buffer : Option PfcpSessionResponse) (arrived : List (List ℕ)) (c : PfcpClient)
    → Waits seq ch buffer c
    → lookup ch (deliver arrived c).channels ≡ some (or_else buffer (first_answer seq arrived))
unfolding deliver first_answer
deliver-holds seq ch none [] c w = w.holds
deliver-holds seq ch (some res) [] c w = w.holds
deliver-holds seq ch buffer (bytes ∷ rest) c w =
    deliver-holds seq ch (or_else buffer (with_seq seq (decode_response bytes))) rest
      (handle_response bytes c) (handle_response-Waits seq ch buffer bytes c w)
    ∙ ap some (or_else_assoc buffer (with_seq seq (decode_response bytes)) (first_answer seq rest))

register-Waits :
    (seq : ℕ) (c : PfcpClient) → IsFresh c → Waits seq c.next_channel none (register seq c)
unfolding register
register-Waits seq c f = record {
  own = lookup-insert_self seq c.next_channel c.pending;
  only =
      λ k h. ground (arith, lookup-insert seq k c.next_channel c.pending, f.below k c.next_channel);
  holds = lookup-insert_self c.next_channel none c.channels;
}

-- A removal undoes a registration, but for an entry that the registration overwrote.
unregister-register :
    (seq k : ℕ) (c c' : PfcpClient)
    → c'.pending ≡ (register seq c).pending
    → lookup k (unregister seq c').pending ≡ (if seq == k then none else lookup k c.pending)
unfolding unregister register
unregister-register seq k c c' e =
    ground (arith, lookup-delete seq k c'.pending, lookup-insert seq k c.next_channel c.pending)

-- What a call returns by the first answer, where its timer has not fired first.
abbrev pub outcome : Text → Text → Option PfcpSessionResponse → Result PfcpSessionResponse
outcome refusal timeout none = err timeout
outcome refusal timeout (some res) = accept refusal res

module _ (refusal timeout : Text) (net : List ℕ → Exchange) (seq : ℕ) (bytes : List ℕ)
    (c : PfcpClient) where
  -- Whatever happens during a call, its sequence number is no longer awaited after it, and every
  -- other one is awaited as before.
  pub transact-pending :
      (k : ℕ)
      → lookup k (transact refusal timeout net seq bytes c).0.pending
        ≡ (if seq == k then none else lookup k c.pending)
  unfolding transact
  transact-pending k = elim (Option-cases (net bytes).write_error) [
    | inl sent ↦
        rw (sent, transact)
          (unregister-register seq k c (deliver (net bytes).arrived (register seq c))
            (pending-deliver (net bytes).arrived (register seq c)))
    | inr (e, failed) ↦ rw (failed, transact) (unregister-register seq k c (register seq c) refl)
  ]

  transact-outcome :
      IsFresh c
      → (net bytes).write_error ≡ none
      → (net bytes).expired ≡ false
      → (transact refusal timeout net seq bytes c).1
        ≡ outcome refusal timeout (first_answer seq (net bytes).arrived)
  unfolding transact await
  transact-outcome f sent waits = ground (
    arith,
    deliver-holds seq c.next_channel none (net bytes).arrived (register seq c)
        (register-Waits seq c f),
  )

module _ (net : List ℕ → Exchange) (ip : Text) (c : PfcpClient) where
  -- After an establishment request, whatever came of it, every sequence number but its own is awaited
  -- as before.
  pub send_session_establishment_request-pending :
      (k : ℕ)
      → k ≢ (next_seq c).seq_counter
      → lookup k (send_session_establishment_request net ip c).0.pending ≡ lookup k c.pending
  unfolding send_session_establishment_request next_seq
  send_session_establishment_request-pending k h =
      elim (Result-cases (encode_request 50 (next_seq c).seq_counter ip)) [
        | inl (e, refused) ↦ rw (refused, send_session_establishment_request)
        | inr (bytes, encoded) ↦
            rw (encoded, send_session_establishment_request)
              (ground (
                arith,
                transact-pending rejected timed_out net (next_seq c).seq_counter bytes (next_seq c)
                    k,
              ))
      ]

  -- Of a client whose pending channels are ones that it made, a request that is encoded, written and
  -- waited for returns by the first datagram with its sequence
  -- number: the response if its cause is 1, an error if not, and a timeout if there is none.
  pub send_session_establishment_request-outcome :
      (bytes : List ℕ)
      → IsFresh c
      → encode_request 50 (next_seq c).seq_counter ip ≡ ok bytes
      → (net bytes).write_error ≡ none
      → (net bytes).expired ≡ false
      → (send_session_establishment_request net ip c).1
        ≡ outcome rejected timed_out (first_answer (next_seq c).seq_counter (net bytes).arrived)
  unfolding send_session_establishment_request next_seq
  send_session_establishment_request-outcome bytes f encoded sent waits =
      rw (encoded, send_session_establishment_request)
        (transact-outcome rejected timed_out net (next_seq c).seq_counter bytes (next_seq c)
          (record { below = f.below }) sent waits)
