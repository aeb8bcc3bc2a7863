-- ===== src/System/Core/Moves.antt =====
-- What a worker's next stage needs of the active sessions (`worker` of internal/smf/service.go).
use pdu_session_sim.Common.{
  ℕ, ◌<◌, ◌≡◌, ◌≢◌, ◌^◌, inl, inr, refl, sym, ap, subst, ◌∙◌, List, [], ◌∷◌, ◌++◌, some, Text,
  text_eq, nat_eq, ◌==◌, ==_iff, Bool, Bool-cases, Result, ok, err, lookup, arith,
}
use pdu_session_sim.Models.{PduSession}
use pdu_session_sim.Pfcp.{PfcpSessionResponse}
use pdu_session_sim.Smf.Concurrent.Service.{Worker, busy, set}
use pdu_session_sim.Smf.Concurrent.Stages.{Stage, after_outcome}
use pdu_session_sim.Smf.Db.Interface.{SessionRepository}
use pdu_session_sim.Smf.Db.Status.{active_status}
use pdu_session_sim.Smf.Orchestrator.State.{Job}
use pdu_session_sim.Smf.PfcpClient.{PfcpClient, await, accept}
use pdu_session_sim.System.Core.{WasSent, written}
use pdu_session_sim.System.Core.Client.{Correlated}
use pdu_session_sim.System.Core.Sound.{
  Log, Backs, HasBacking, IsRequest, AtStage, AtWork, AreBacked, Sound, Extends, set-All,
  IsRequest-extends, IsAnswer-extends, AtWork-extends, AreBacked-extends,
}
use pdu_session_sim.Upf.{Server}

pub written-after_outcome :
    {A : Type 0} (stage : Stage) (r : Result A)
    → written stage ≡ []
    → written (after_outcome stage r) ≡ []
written-after_outcome stage (err e) quiet = refl
written-after_outcome stage (ok _) quiet = quiet

pub WasSent-append :
    (bytes : List ℕ) (new old : List (List ℕ)) (P : Type 0)
    → (WasSent bytes new → P)
    → (WasSent bytes old → P)
    → WasSent bytes (new ++ old)
    → P
WasSent-append bytes [] old P left right sent = right sent
WasSent-append bytes (first ∷ new) old P left right (inl e) = left (inl e)
WasSent-append bytes (first ∷ new) old P left right (inr sent) =
    WasSent-append bytes new old P (λ s. left (inr s)) right sent

-- A wait that yields a response took it from its channel.
pub await-held :
    (refusal timeout : Text) (expired : Bool) (ch : ℕ) (c : PfcpClient) (res : PfcpSessionResponse)
    → await refusal timeout expired ch c ≡ ok res
    → lookup ch c.channels ≡ some (some res)
unfolding await accept
await-held refusal timeout expired ch c res e = ground (arith, e)

module _ {R : Type 0} (repo : SessionRepository R) (log : Log) (c : PfcpClient) (upf : Server) where
  pub AtStage-after_outcome :
      {A : Type 0} (job : Job) (stage : Stage) (r : Result A)
      → AtStage log c upf job stage
      → AtStage log c upf job (after_outcome stage r)
  AtStage-after_outcome job stage (err e) at = tt
  AtStage-after_outcome job stage (ok _) at = at

  -- A session is written; it is backed if it is active.
  pub AreBacked-written :
      (store store' : R) (ref : Text) (s : PduSession)
      → ((other : Text) → ref ≢ other → repo.get other store' ≡ repo.get other store)
      → repo.get ref store' ≡ ok s
      → (s.status ≡ active_status → HasBacking log c upf s.ip_address)
      → AreBacked log c repo upf store
      → AreBacked log c repo upf store'
  AreBacked-written store store' ref s others at held backed other t found active =
      elim (Bool-cases (ref == other)) [
        | inl own ↦
            let same : s ≡ t = ground (arith, own, ==_iff ref other, at, found) in
            subst (λ (u : PduSession). HasBacking log c upf u.ip_address) same
              (held (ap (λ (u : PduSession). u.status) same ∙ active))
        | inr ne ↦
            let different : ref ≢ other = λ e. ground (arith, e, ne, ==_iff ref other) in
            backed other t (sym (others other different) ∙ found) active
      ]

  module _ (to_upf to_smf : List (List ℕ)) (workers : ℕ → Worker) (store : R)
      (sound : Sound repo log c upf to_upf to_smf workers store) (i : ℕ) (job : Job) where
    -- The worker goes on to a stage, with the client and the store changed.
    pub moved-Sound :
        (log' : Log) (c' : PfcpClient) (store' : R) (following : Stage)
        → Extends log c upf log' c' upf
        → c'.seq_counter < 2 ^ 32
        → Correlated (Backs log' c' upf) log'.owner c'
        → AtStage log' c' upf job following
        → ((bytes : List ℕ) → WasSent bytes (written following) → IsRequest log' c' bytes)
        → AreBacked log c repo upf store'
        → Sound repo log' c' upf
            (written following ++ to_upf)
            to_smf
            (set workers i (busy job following))
            store'
    moved-Sound log' c' store' following ext small client at request backed = record {
      small = small;
      client = client;
      keyed = sound.keyed;
      requests = λ bytes sent.
          WasSent-append bytes (written following) to_upf (IsRequest log' c' bytes) (request bytes)
            (λ old. IsRequest-extends log c upf log' c' upf ext bytes (sound.requests bytes old))
            sent;
      answered = λ bytes sent.
          IsAnswer-extends log c upf log' c' upf ext bytes (sound.answered bytes sent);
      at_work =
          set-All (λ worker. AtWork log' c' upf worker) workers i (busy job following) at
            (λ j. AtWork-extends log c upf log' c' upf ext (workers j) (sound.at_work j));
      backed = AreBacked-extends log c upf log' c' upf ext repo store' backed;
    }

    -- The client and its numbers stay.
    pub quiet-Sound :
        (c' : PfcpClient) (store' : R) (following : Stage)
        → c' ≡ c
        → written following ≡ []
        → AtStage log c upf job following
        → AreBacked log c repo upf store'
        → Sound repo log c' upf
            (written following ++ to_upf)
            to_smf
            (set workers i (busy job following))
            store'
    quiet-Sound c' store' following same nothing at backed =
        subst
          (λ client.
            Sound repo log client upf (written following ++ to_upf) to_smf
              (set workers i (busy job following)) store')
          (sym same)
          (moved-Sound log c store' following
            (record {
              counted = omega arith;
              more_channels = omega arith;
              same_issued = λ seq below. refl;
              same_owner = λ ch below. refl;
              still_backs = λ seq b. b;
            })
            sound.small sound.client at (λ bytes sent. absurd (subst (WasSent bytes) nothing sent))
            backed)
