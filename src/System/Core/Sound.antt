-- ===== src/System/Core/Sound.antt =====
-- What holds of the SMF, the UPF and the datagrams between them at any time (internal/smf, internal/upf).
use pdu_session_sim.Common.{
  ℕ, ◌<◌, ◌≤◌, ◌≡◌, ◌^◌, inl, inr, sym, subst, ◌∙◌, List, Text, ok, Bool-cases, nat_beq, arith,
}
use pdu_session_sim.Models.{PduSession}
use pdu_session_sim.Pfcp.{PfcpSessionResponse, encode_request, decode_response}
use pdu_session_sim.Smf.Concurrent.Service.{Worker, idle, busy, set}
use pdu_session_sim.Smf.Concurrent.Stages.{Stage, waiting, activating}
use pdu_session_sim.Smf.Db.Interface.{SessionRepository}
use pdu_session_sim.Smf.Db.Status.{active_status}
use pdu_session_sim.Smf.Orchestrator.State.{Job}
use pdu_session_sim.Smf.PfcpClient.{PfcpClient}
use pdu_session_sim.Smf.PfcpClient.Correlation.{seq_of}
use pdu_session_sim.System.Core.{WasSent}
use pdu_session_sim.System.Core.Client.{Correlated}
use pdu_session_sim.System.Core.Table.{Stored}
use pdu_session_sim.Upf.{Server}
use pdu_session_sim.Upf.Spec.{IsKeyed}

-- The address that each sequence number was used for, and the number that each channel was made for.
pub record Log : Type 0 where
  pub issued : ℕ → Text
  pub owner : ℕ → ℕ

module _ (log : Log) (c : PfcpClient) where
  -- The UPF holds the address of a number that was used.
  abbrev pub Backs : Server → ℕ → Type 0
  Backs upf seq = (seq ≤ c.seq_counter) × Stored upf seq (log.issued seq)

  abbrev pub HasBacking : Server → Text → Type 0
  HasBacking upf ip = (seq : ℕ) × (log.issued seq ≡ ip) × Backs upf seq

  abbrev pub IsRequest : List ℕ → Type 0
  IsRequest bytes =
      (seq : ℕ) × (seq ≤ c.seq_counter) × (encode_request 50 seq (log.issued seq) ≡ ok bytes)

  abbrev pub IsAnswer : Server → List ℕ → Type 0
  IsAnswer upf bytes =
      (res : PfcpSessionResponse) × (decode_response bytes ≡ ok res) × Backs upf (seq_of res)

  -- A worker that waits does so for its own job's number, one that activates a session has an answer.
  abbrev pub AtStage : Server → Job → Stage → Type 0
  AtStage upf job (waiting bytes seq ch) =
      (seq ≤ c.seq_counter)
      × (log.issued seq ≡ job.ip_address)
      × (log.owner ch ≡ seq)
      × (ch < c.next_channel)
  AtStage upf job activating = HasBacking upf job.ip_address
  AtStage upf job _ = Unit

  abbrev pub AtWork : Server → Worker → Type 0
  AtWork upf idle = Unit
  AtWork upf (busy job stage) = AtStage upf job stage

  abbrev pub AreBacked : {R : Type 0} → SessionRepository R → Server → R → Type 0
  AreBacked repo upf store =
      (ref : Text) (s : PduSession)
      → repo.get ref store ≡ ok s
      → s.status ≡ active_status
      → HasBacking upf s.ip_address

pub record Sound {R : Type 0} (repo : SessionRepository R) (log : Log) (c : PfcpClient)
    (upf : Server) (to_upf to_smf : List (List ℕ)) (workers : ℕ → Worker) (store : R) : Type 0 where
  pub small : c.seq_counter < 2 ^ 32
  pub client : Correlated (Backs log c upf) log.owner c
  pub keyed : IsKeyed upf
  pub requests : (bytes : List ℕ) → WasSent bytes to_upf → IsRequest log c bytes
  pub answered : (bytes : List ℕ) → WasSent bytes to_smf → IsAnswer log c upf bytes
  pub at_work : (i : ℕ) → AtWork log c upf (workers i)
  pub backed : AreBacked log c repo upf store

-- What one side does leaves what the other relies on.
pub record Extends (log : Log) (c : PfcpClient) (upf : Server) (log' : Log) (c' : PfcpClient)
    (upf' : Server) : Type 0 where
  pub counted : c.seq_counter ≤ c'.seq_counter
  pub more_channels : c.next_channel ≤ c'.next_channel
  pub same_issued : (seq : ℕ) → seq ≤ c.seq_counter → log'.issued seq ≡ log.issued seq
  pub same_owner : (ch : ℕ) → ch < c.next_channel → log'.owner ch ≡ log.owner ch
  pub still_backs : (seq : ℕ) → Backs log c upf seq → Backs log' c' upf' seq

pub set-All :
    {A : Type 0} (P : A → Type 0) (f : ℕ → A) (i : ℕ) (a : A)
    → P a
    → ((j : ℕ) → P (f j))
    → (j : ℕ) → P (set f i a j)
set-All P f i a own others j = elim (Bool-cases (nat_beq i j)) [
  | inl same ↦ rw same own
  | inr other ↦ rw other (others j)
]

module _ (log : Log) (c : PfcpClient) (upf : Server) (log' : Log) (c' : PfcpClient) (upf' : Server)
    (ext : Extends log c upf log' c' upf') where
  pub HasBacking-extends : (ip : Text) → HasBacking log c upf ip → HasBacking log' c' upf' ip
  HasBacking-extends ip (seq, same, backs) =
      (seq, ext.same_issued seq backs.0 ∙ same, ext.still_backs seq backs)

  pub IsRequest-extends : (bytes : List ℕ) → IsRequest log c bytes → IsRequest log' c' bytes
  IsRequest-extends bytes (seq, below, encoded) = (
    seq,
    omega (arith, below, ext.counted),
    subst (λ ip. encode_request 50 seq ip ≡ ok bytes) (sym (ext.same_issued seq below)) encoded,
  )

  pub IsAnswer-extends : (bytes : List ℕ) → IsAnswer log c upf bytes → IsAnswer log' c' upf' bytes
  IsAnswer-extends bytes (res, decoded, backs) = (res, decoded, ext.still_backs (seq_of res) backs)

  pub AtStage-extends :
      (job : Job) (stage : Stage) → AtStage log c upf job stage → AtStage log' c' upf' job stage
  AtStage-extends job (waiting bytes seq ch) (below, ip, own, made) = (
    omega (arith, below, ext.counted),
    ext.same_issued seq below ∙ ip,
    ext.same_owner ch made ∙ own,
    omega (arith, made, ext.more_channels),
  )
  AtStage-extends job activating held = HasBacking-extends job.ip_address held
  AtStage-extends job _ _ = tt

  pub AtWork-extends : (worker : Worker) → AtWork log c upf worker → AtWork log' c' upf' worker
  AtWork-extends idle w = tt
  AtWork-extends (busy job stage) w = AtStage-extends job stage w

  pub AreBacked-extends :
      {R : Type 0} (repo : SessionRepository R) (store : R)
      → AreBacked log c repo upf store
      → AreBacked log' c' repo upf' store
  AreBacked-extends repo store backed ref s at active =
      HasBacking-extends s.ip_address (backed ref s at active)
