-- ===== src/System/Core/Datagrams.antt =====
-- The datagrams that arrive leave the active sessions backed by the UPF (`listenLoop` of
-- internal/upf/server.go, `receiveLoop` of internal/smf/pfcp_client.go).
use pdu_session_sim.Common.{
  ℕ, ◌<◌, ◌≤◌, ◌≡◌, ◌≢◌, ◌^◌, inl, inr, refl, sym, ap, subst, ◌∙◌, List, [], none, some, Option,
  Text, ok, lookup, nat_eq, arith,
}
use pdu_session_sim.Models.{PduSession}
use pdu_session_sim.Pfcp.{encode_request}
use pdu_session_sim.Smf.Concurrent.Ends.{start}
use pdu_session_sim.Smf.Concurrent.Service
use pdu_session_sim.Smf.Concurrent.Service.{Worker, idle, busy, first_stage}
use pdu_session_sim.Smf.Db.Interface.{SessionRepository}
use pdu_session_sim.Smf.Db.Status.{active_status}
use pdu_session_sim.Smf.Orchestrator.Worker.{init_orchestrator}
use pdu_session_sim.Smf.PfcpClient.{PfcpClient, new_client, handle_response}
use pdu_session_sim.System.{answers}
use pdu_session_sim.System.Core.{Core, WasSent, serve_packet}
use pdu_session_sim.System.Core.Client.{
  Correlated-imp, handle_response-Correlated, handle_response-counters,
}
use pdu_session_sim.System.Core.Moves.{WasSent-append}
use pdu_session_sim.System.Core.Sound.{
  Log, IsAnswer, Sound, Extends, AtWork-extends, AreBacked-extends, IsRequest-extends,
  IsAnswer-extends,
}
use pdu_session_sim.System.Core.Table.{Stored, handle_packet-Stored, handle_packet-answered}
use pdu_session_sim.Upf.{Server, new_server, handle_packet}
use pdu_session_sim.Upf.Laws.{handle_packet-IsKeyed}
use pdu_session_sim.Upf.Spec.{IsKeyed}

-- Both functions as they start, over a store.
abbrev pub start_core : {R : Type 0} → R → ℕ → Core R
start_core store queue_size = record {
  smf = start (record { store = store; pfcp = new_client; requests = [] }) queue_size;
  upf = new_server;
  to_upf = [];
  to_smf = [];
}

module _ {R : Type 0} (repo : SessionRepository R) where
  abbrev pub IsSound : Core R → Log → Type 0
  IsSound s log =
      Sound repo log s.smf.smf.orc.world.pfcp s.upf s.to_upf s.to_smf s.smf.workers
        s.smf.smf.orc.world.store

  pub start-IsSound :
      (store : R) (queue_size : ℕ)
      → ((ref : Text) (s : PduSession) → repo.get ref store ≡ ok s → s.status ≢ active_status)
      → IsSound (start_core store queue_size) (record { issued = λ seq. []; owner = λ ch. 0 })
  unfolding init_orchestrator new_client new_server lookup
  start-IsSound store queue_size none_active = record {
    small = omega arith;
    client = record {
      held = λ ch res h. ground (arith, h);
      made = λ ch b h. ground (arith, h);
      routed = λ seq ch h. ground (arith, h);
    };
    keyed = λ seq sess h. ground (arith, h);
    requests = λ bytes sent. absurd sent;
    answered = λ bytes sent. absurd sent;
    at_work = λ i. tt;
    backed = λ ref s at active. absurd (none_active ref s at active);
  }

  sent-IsAnswer :
      (log : Log) (c : PfcpClient) (upf : Server) (seq : ℕ) (bytes : List ℕ)
      → IsKeyed upf
      → seq ≤ c.seq_counter
      → seq < 2 ^ 32
      → encode_request 50 seq (log.issued seq) ≡ ok bytes
      → (other : List ℕ) (answer : Option (List ℕ)) → (handle_packet upf bytes).1 ≡ answer
      → WasSent other (answers answer)
      → IsAnswer log c (handle_packet upf bytes).0 other
  sent-IsAnswer log c upf seq bytes keyed below small encoded other none e new = absurd new
  sent-IsAnswer log c upf seq bytes keyed below small encoded other (some answer) e (inl same) =
      let (res, decoded, number, stored) =
        handle_packet-answered upf seq (log.issued seq) bytes keyed small encoded other
          (e ∙ ap some same) in
      (
        res,
        decoded,
        (
          omega (arith, number, below),
          subst (λ k. Stored (handle_packet upf bytes).0 k (log.issued k)) (sym number) stored,
        ),
      )
  sent-IsAnswer log c upf seq bytes keyed below small encoded other (some answer) e (inr nothing) =
      absurd nothing

  pub served-IsSound :
      (s : Core R) (log : Log) (bytes : List ℕ)
      → WasSent bytes s.to_upf
      → IsSound s log
      → IsSound (serve_packet bytes s) log
  served-IsSound s log bytes sent sound =
      let c = s.smf.smf.orc.world.pfcp in
      let upf' = (handle_packet s.upf bytes).0 in
      let (seq, below, encoded) = sound.requests bytes sent in
      let small : seq < 2 ^ 32 = omega (arith, below, sound.small) in
      let ext : Extends log c s.upf log c upf' = record {
        counted = omega arith;
        more_channels = omega arith;
        same_issued = λ k low. refl;
        same_owner = λ ch low. refl;
        still_backs = λ k (low, stored). (
          low,
          handle_packet-Stored s.upf seq (log.issued seq) bytes sound.keyed small encoded k
              (log.issued k) (ap log.issued) stored,
        );
      } in
      record {
        small = sound.small;
        client = Correlated-imp c ext.still_backs sound.client;
        keyed = handle_packet-IsKeyed s.upf bytes sound.keyed;
        requests = sound.requests;
        answered = λ other came.
            WasSent-append other (answers (handle_packet s.upf bytes).1) s.to_smf
              (IsAnswer log c upf' other)
              (λ new.
                sent-IsAnswer log c s.upf seq bytes sound.keyed below small encoded other
                  (handle_packet s.upf bytes).1 refl new)
              (λ old. IsAnswer-extends log c s.upf log c upf' ext other (sound.answered other old))
              came;
        at_work =
            λ i. AtWork-extends log c s.upf log c upf' ext (s.smf.workers i) (sound.at_work i);
        backed =
            AreBacked-extends log c s.upf log c upf' ext repo s.smf.smf.orc.world.store
              sound.backed;
      }

  pub received-IsSound :
      (s : Core R) (log : Log) (bytes : List ℕ)
      → WasSent bytes s.to_smf
      → IsSound s log
      → IsSound (record s { smf = Service.receive bytes s.smf }) log
  received-IsSound s log bytes sent sound =
      let c = s.smf.smf.orc.world.pfcp in
      let c' = handle_response bytes c in
      let (counted, channels) = handle_response-counters bytes c in
      let (res, decoded, backs) = sound.answered bytes sent in
      let ext : Extends log c s.upf log c' s.upf = record {
        counted = omega (arith, counted);
        more_channels = omega (arith, channels);
        same_issued = λ k low. refl;
        same_owner = λ ch low. refl;
        still_backs = λ k (low, stored). (omega (arith, low, counted), stored);
      } in
      record {
        small = omega (arith, counted, sound.small);
        client =
            Correlated-imp c' ext.still_backs
              (handle_response-Correlated bytes res c decoded backs sound.client);
        keyed = sound.keyed;
        requests = λ other came.
            IsRequest-extends log c s.upf log c' s.upf ext other (sound.requests other came);
        answered = λ other came.
            IsAnswer-extends log c s.upf log c' s.upf ext other (sound.answered other came);
        at_work =
            λ i. AtWork-extends log c s.upf log c' s.upf ext (s.smf.workers i) (sound.at_work i);
        backed =
            AreBacked-extends log c s.upf log c' s.upf ext repo s.smf.smf.orc.world.store
              sound.backed;
      }
