-- ===== src/Smf/PfcpClient/Correlation.antt =====
-- Calls of the client interleaved with each other and with incoming datagrams, step by step: a
-- datagram's goroutine looks its channel up under the lock, and sends to it later.
use pdu_session_sim.Common.{
  ℕ, ◌<◌, ◌≡◌, List, [], ◌∷◌, ◌++◌, none, some, Text, Bool, ok, Map, lookup, insert, lookup-insert,
  lookup-insert_cases, lookup-delete_cases, All, All-append_iff, All-map_imp, arith, nat_eq,
}
use pdu_session_sim.Pfcp.{PfcpSessionResponse, decode_response}
use pdu_session_sim.Smf.PfcpClient.{
  PfcpClient, new_client, offer, register, unregister, await, accept,
}

-- The sequence number of the call behind each channel, and the responses on their way to a channel.
pub record System : Type 0 where
  pub client : PfcpClient
  pub calls : Map ℕ ℕ
  pub on_the_way : List (ℕ × PfcpSessionResponse)

abbrev pub initial : System
initial = record { client = new_client; calls = []; on_the_way = [] }

abbrev pub seq_of : PfcpSessionResponse → ℕ
seq_of res = res.header.sequence_number

-- One step of some goroutine.
pub data Step (s : System) : System → Type 0 where
  -- A call registers its channel, under any sequence number.
  begins :
      (seq : ℕ)
      → Step s (record s {
        client = register seq s.client;
        calls = insert s.client.next_channel seq s.calls;
      })
  -- A datagram decodes, and its sequence number is awaited.
  arrives :
      (bytes : List ℕ) (res : PfcpSessionResponse) (ch : ℕ)
      → decode_response bytes ≡ ok res
      → lookup (seq_of res) s.client.pending ≡ some ch
      → Step s (record s { on_the_way = (ch, res) ∷ s.on_the_way })
  -- A goroutine sends to the channel that it found.
  sends :
      (ch : ℕ) (res : PfcpSessionResponse) (before after : List (ℕ × PfcpSessionResponse))
      → s.on_the_way ≡ before ++ ((ch, res) ∷ after)
      → Step s (record s { client = offer ch res s.client; on_the_way = before ++ after })
  -- A call returns, and removes its sequence number.
  returns : (seq : ℕ) → Step s (record s { client = unregister seq s.client })

pub data Reach (s : System) : System → Type 0 where
  here : Reach s s
  next : {t u : System} → Reach s t → Step t u → Reach s u

-- Each response at a channel, or on its way to one, has the sequence number of the channel's call.
pub record IsCorrelated (s : System) : Type 0 where
  pub fresh : (ch seq : ℕ) → lookup ch s.calls ≡ some seq → ch < s.client.next_channel
  pub routed : (seq ch : ℕ) → lookup seq s.client.pending ≡ some ch → lookup ch s.calls ≡ some seq
  pub held :
      (ch : ℕ) (res : PfcpSessionResponse)
      → lookup ch s.client.channels ≡ some (some res)
      → lookup ch s.calls ≡ some (seq_of res)
  pub carried : All (λ d. lookup d.0 s.calls ≡ some (seq_of d.1)) s.on_the_way

initial-IsCorrelated : IsCorrelated initial
unfolding new_client lookup
initial-IsCorrelated = record {
  fresh = λ ch seq h. ground arith;
  routed = λ seq ch h. ground arith;
  held = λ ch res h. ground arith;
  carried = tt;
}

-- A call that is known keeps its sequence number when a new one begins.
known-begins :
    (s : System) (ch seq new : ℕ)
    → IsCorrelated s
    → lookup ch s.calls ≡ some seq
    → lookup ch (insert s.client.next_channel new s.calls) ≡ some seq
known-begins s ch seq new c h =
    ground (arith, lookup-insert s.client.next_channel ch new s.calls, c.fresh ch seq h)

begins-IsCorrelated :
    (s : System) (seq : ℕ)
    → IsCorrelated s
    → IsCorrelated (record s {
      client = register seq s.client;
      calls = insert s.client.next_channel seq s.calls;
    })
unfolding register
begins-IsCorrelated s seq c = record {
  fresh = λ ch k h.
      ground (arith, lookup-insert_cases s.client.next_channel ch seq k s.calls h, c.fresh ch k);
  routed = λ k ch h. ground (
    arith,
    lookup-insert_cases seq k s.client.next_channel ch s.client.pending h,
    lookup-insert s.client.next_channel ch seq s.calls,
    c.routed k ch,
    known-begins s ch k seq c,
  );
  held = λ ch res h. ground (
    arith,
    lookup-insert_cases s.client.next_channel ch none (some res) s.client.channels h,
    c.held ch res,
    known-begins s ch (seq_of res) seq c,
  );
  carried = All-map_imp s.on_the_way (λ d. known-begins s d.0 (seq_of d.1) seq c) c.carried;
}

offer-IsCorrelated :
    (s : System) (ch : ℕ) (res : PfcpSessionResponse)
    → IsCorrelated s
    → lookup ch s.calls ≡ some (seq_of res)
    → IsCorrelated (record s { client = offer ch res s.client })
unfolding offer
offer-IsCorrelated s ch res c k = record {
  fresh = λ j seq h. ground (arith, c.fresh j seq);
  routed = λ seq j h. ground (arith, c.routed seq j);
  held = λ j r h.
      ground (arith, lookup-insert_cases ch j (some res) (some r) s.client.channels, c.held j r);
  carried = c.carried;
}

-- Every step of every goroutine keeps responses with their calls.
pub Step-IsCorrelated : {s t : System} → Step s t → IsCorrelated s → IsCorrelated t
unfolding unregister
Step-IsCorrelated {s} (begins seq) c = begins-IsCorrelated s seq c
Step-IsCorrelated {s} (arrives bytes res ch d e) c = record {
  fresh = c.fresh;
  routed = c.routed;
  held = c.held;
  carried = (c.routed (seq_of res) ch e, c.carried);
}
Step-IsCorrelated {s} (sends ch res before after e) c =
    let parts = (All-append_iff _ before ((ch, res) ∷ after)).0 (rw e at c.carried) in
    let left : System = record s { on_the_way = before ++ after } in
    offer-IsCorrelated left ch res
      (record {
        fresh = c.fresh;
        routed = c.routed;
        held = c.held;
        carried = (All-append_iff _ before after).1 (parts.0, parts.1.1);
      })
      parts.1.0
Step-IsCorrelated {s} (returns seq) c = record {
  fresh = c.fresh;
  routed = λ k ch h. c.routed k ch (lookup-delete_cases seq k ch s.client.pending h).1;
  held = c.held;
  carried = c.carried;
}

Reach-IsCorrelated : {s t : System} → Reach s t → IsCorrelated s → IsCorrelated t
Reach-IsCorrelated here c = c
Reach-IsCorrelated (next r st) c = Step-IsCorrelated st (Reach-IsCorrelated r c)

-- In every history of interleaved calls and datagrams, a call that returns a response returns one
-- with its own sequence number and cause 1.
pub await-own_response :
    (s : System) (rejected timeout : Text) (expired : Bool) (ch seq : ℕ) (res : PfcpSessionResponse)
    → Reach initial s
    → lookup ch s.calls ≡ some seq
    → await rejected timeout expired ch s.client ≡ ok res
    → (seq_of res ≡ seq) × (res.cause ≡ 1)
unfolding await accept
await-own_response s rejected timeout expired ch seq res r k e =
    ground (arith, (Reach-IsCorrelated r initial-IsCorrelated).held ch res)
