-- ===== src/System/Pfcp.antt =====
-- The SMF's PFCP client against the UPF's packet handler.
use pdu_session_sim.Common.{ℕ, ◌<◌, ◌≡◌, refl, ◌∙◌, List, [], ◌∷◌, some, ok, get_or, nat_eq, arith}
use pdu_session_sim.Ip.{print_ipv4}
use pdu_session_sim.Pfcp.{PfcpSessionResponse, decode_request, encode_request}
use pdu_session_sim.Pfcp.Laws.{header, decode_request-encode_request}
use pdu_session_sim.Smf.PfcpClient.{
  PfcpClient, next_seq, send_session_establishment_request, accept,
}
use pdu_session_sim.Smf.PfcpClient.Laws.{
  IsFresh, first_answer, send_session_establishment_request-outcome,
}
use pdu_session_sim.System.{upf_exchange}
use pdu_session_sim.Upf.{Server}
use pdu_session_sim.Upf.Laws.{handle_packet-answer_seq}
use pdu_session_sim.Upf.Spec.{served}

module _ (c : PfcpClient) (s : Server) (i₀ i₁ i₂ i₃ : ℕ) (h₀ : i₀ < 256) (h₁ : i₁ < 256)
    (h₂ : i₂ < 256) (h₃ : i₃ < 256) where
  abbrev seq : ℕ
  seq = (next_seq c).seq_counter

  request :
      (bytes : List ℕ) × (encode_request 50 seq (print_ipv4 i₀ i₁ i₂ i₃) ≡ ok bytes)
      × (served bytes
          ≡ some (record { header = header 50 5 seq; pdn_type = 1; ip = i₀ ∷ i₁ ∷ i₂ ∷ i₃ ∷ [] }))
  unfolding decode_request next_seq
  request =
      let (bytes, encoded, size, decoded) =
        decode_request-encode_request 50 seq i₀ i₁ i₂ i₃ (omega arith) h₀ h₁ h₂ h₃ in
      let kind : get_or bytes 1 0 ≡ 50 = ground (arith, decoded) in
      (bytes, encoded, ground (arith, kind, decoded))

  -- A PFCP client whose pending channels are ones that it made sends an establishment request for an
  -- address in dotted decimal to the UPF, and gets its answer: where nothing else arrives,
  -- no write fails and the answer is in time, the SMF gets a response with cause 1 and its own sequence
  -- number.
  pub send-upf_accepts :
      IsFresh c
      → (res : PfcpSessionResponse) × ((send_session_establishment_request
            (upf_exchange s)
            (print_ipv4 i₀ i₁ i₂ i₃)
            c).1
          ≡ ok res)
        × (res.cause ≡ 1)
        × (res.header.sequence_number ≡ seq)
  unfolding next_seq accept first_answer
  send-upf_accepts fresh =
      let (bytes, encoded, req) = request in
      let (answer, sent, read) = handle_packet-answer_seq s bytes _ req (omega arith) in
      let res : PfcpSessionResponse = record { header = header 51 1 seq; cause = 1 } in
      (
        res,
        send_session_establishment_request-outcome (upf_exchange s) (print_ipv4 i₀ i₁ i₂ i₃) c bytes
              fresh encoded refl refl
            ∙ ground (arith, sent, read),
        refl,
        refl,
      )
