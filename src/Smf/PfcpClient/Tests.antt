-- ===== src/Smf/PfcpClient/Tests.antt =====
-- A call that is answered, and two calls that are answered in the other order.
use pdu_session_sim.Common.{
  ℕ, ◌≡◌, refl, List, [], ◌∷◌, none, some, text, false, ok, lookup, insert, nat_eq, arith,
}
use pdu_session_sim.Ip.{parse_ip4}
use pdu_session_sim.Pfcp.{PfcpSessionResponse, encode_request, decode_response}
use pdu_session_sim.Smf.PfcpClient.{
  Exchange, new_client, offer, register, await, next_seq, rejected, timed_out,
  send_session_establishment_request,
}
use pdu_session_sim.Smf.PfcpClient.Correlation.{
  System, initial, seq_of, begins, arrives, sends, Reach, here, next, await-own_response,
}
use pdu_session_sim.Smf.PfcpClient.Laws.{
  IsFresh, first_answer, outcome, send_session_establishment_request-outcome,
}

-- A late answer to call 9, and the answer to call 1.
abbrev answer_bytes : List ℕ
answer_bytes = 0x20 ∷ 51 ∷ 0 ∷ 1 ∷ 0 ∷ 0 ∷ 0 ∷ 1 ∷ 1 ∷ []

abbrev other_bytes : List ℕ
other_bytes = 0x20 ∷ 51 ∷ 0 ∷ 1 ∷ 0 ∷ 0 ∷ 0 ∷ 9 ∷ 2 ∷ []

abbrev answering : List ℕ → Exchange
answering bytes = record {
  write_error = none;
  arrived = other_bytes ∷ answer_bytes ∷ [];
  expired = false;
}

abbrev request_bytes : List ℕ
request_bytes = 0x20 ∷ 50 ∷ 0 ∷ 5 ∷ 0 ∷ 0 ∷ 0 ∷ 1 ∷ 1 ∷ 10 ∷ 11 ∷ 22 ∷ 2 ∷ []

no_calls : IsFresh new_client
unfolding new_client lookup
no_calls = record { below = λ seq ch h. ground (arith, h) }

first_encoded :
    encode_request 50 (next_seq new_client).seq_counter (text "10.11.22.2") ≡ ok request_bytes
unfolding encode_request next_seq new_client parse_ip4
first_encoded = refl

answered :
    (send_session_establishment_request answering (text "10.11.22.2") new_client).1
    ≡ ok (record {
      header = record {
        version_and_flags = 0x20;
        message_type = 51;
        length = 1;
        sequence_number = 1;
      };
      cause = 1;
    })
unfolding send_session_establishment_request encode_request next_seq new_client parse_ip4
    decode_response
answered = refl

send_session_establishment_request-outcome_example :
    (send_session_establishment_request answering (text "10.11.22.2") new_client).1
    ≡ outcome rejected timed_out
        (first_answer (next_seq new_client).seq_counter (other_bytes ∷ answer_bytes ∷ []))
send_session_establishment_request-outcome_example =
    send_session_establishment_request-outcome answering (text "10.11.22.2") new_client
      request_bytes no_calls first_encoded refl refl

abbrev answer : PfcpSessionResponse
answer = record {
  header = record { version_and_flags = 0x20; message_type = 51; length = 1; sequence_number = 1 };
  cause = 1;
}

-- Call 1 begins, call 9 begins, the answer to call 1 arrives, and is sent.
abbrev first_begun : System
first_begun = record initial {
  client = register 1 new_client;
  calls = insert initial.client.next_channel 1 initial.calls;
}

abbrev both_begun : System
both_begun = record first_begun {
  client = register 9 first_begun.client;
  calls = insert first_begun.client.next_channel 9 first_begun.calls;
}

abbrev found : System
found = record both_begun { on_the_way = (0, answer) ∷ [] }

abbrev sent : System
sent = record both_begun { client = offer 0 answer both_begun.client; on_the_way = [] }

answer_decoded : decode_response answer_bytes ≡ ok answer
unfolding decode_response
answer_decoded = refl

call_found : lookup 1 both_begun.client.pending ≡ some 0
unfolding register new_client lookup insert
call_found = refl

sent-Reach : Reach initial sent
sent-Reach =
    next
      (next (next (next here (begins 1)) (begins 9))
        (arrives answer_bytes answer 0 answer_decoded call_found))
      (sends 0 answer [] [] refl)

call_known : lookup 0 sent.calls ≡ some 1
unfolding register new_client lookup insert
call_known = refl

call_returns : await rejected timed_out false 0 sent.client ≡ ok answer
unfolding register new_client lookup insert offer await
call_returns = refl

await-own_response_example : (seq_of answer ≡ 1) × (answer.cause ≡ 1)
await-own_response_example =
    await-own_response sent rejected timed_out false 0 1 answer sent-Reach call_known call_returns
