-- ===== src/System/Core/Backed.antt =====
-- Every active session of the SMF is one that the UPF holds (internal/smf, internal/upf).
use pdu_session_sim.Common.{ℕ, ◌≡◌, ◌≢◌, sym, subst, [], Text, ok, nat_eq, arith}
use pdu_session_sim.Models.{PduSession, CreateSmContextRequest}
use pdu_session_sim.Smf.Concurrent.Ends.{start-IsConsistent, Reach-IsConsistent}
use pdu_session_sim.Smf.Concurrent.Holds.{Holds}
use pdu_session_sim.Smf.Concurrent.Invariant.{IsConsistent}
use pdu_session_sim.Smf.Concurrent.Places.{Occupied}
use pdu_session_sim.Smf.Concurrent.Service
use pdu_session_sim.Smf.Concurrent.Service.{Worker, idle, busy, first_stage}
use pdu_session_sim.Smf.Concurrent.Stages.{Stage}
use pdu_session_sim.Smf.Db.Interface.{SessionRepository, IsRepository, IsReliable}
use pdu_session_sim.Smf.Db.Status.{active_status}
use pdu_session_sim.Smf.Handler.{create_sm_context}
use pdu_session_sim.Smf.Handler.Laws.{create_sm_context-Outcome}
use pdu_session_sim.Smf.Orchestrator.State.{Job, World}
use pdu_session_sim.Smf.PfcpClient.{PfcpClient, new_client}
use pdu_session_sim.System.Core.{
  Core, Step, requested, taken, moved, returned, served, received, Reach, here, next,
}
use pdu_session_sim.System.Core.Advance.{advance-Sound}
use pdu_session_sim.System.Core.Sound.{Log, AtWork, Sound, set-All}
use pdu_session_sim.System.Core.Table.{Stored}
use pdu_session_sim.Upf.{Server}
use pdu_session_sim.System.Core.Datagrams.{
  start_core, IsSound, start-IsSound, served-IsSound, received-IsSound,
}

module _ {R : Type 0} (repo : SessionRepository R) where
  requested-IsSound :
      (s : Core R) (log : Log) (nanos : ℕ) (req : CreateSmContextRequest)
      → IsSound repo s log
      → IsSound repo
          (record s { smf = record s.smf { smf = (create_sm_context nanos (ok req) s.smf.smf).0 } })
          log
  requested-IsSound s log nanos req sound =
      let (same, _, _, _) = create_sm_context-Outcome nanos req s.smf.smf in
      subst (λ (w : World R). Sound repo log w.pfcp s.upf s.to_upf s.to_smf s.smf.workers w.store)
        (sym same) sound

  -- A worker takes a job or returns, and needs nothing of the UPF.
  set-IsSound :
      (s : Core R) (log : Log) (i : ℕ) (worker : Worker)
      → AtWork log s.smf.smf.orc.world.pfcp s.upf worker
      → IsSound repo s log
      → Sound repo log s.smf.smf.orc.world.pfcp s.upf s.to_upf s.to_smf
          (Service.set s.smf.workers i worker)
          s.smf.smf.orc.world.store
  set-IsSound s log i worker own sound = record {
    small = sound.small;
    client = sound.client;
    keyed = sound.keyed;
    requests = sound.requests;
    answered = sound.answered;
    at_work =
        set-All (AtWork log s.smf.smf.orc.world.pfcp s.upf) s.smf.workers i worker own
          sound.at_work;
    backed = sound.backed;
  }

  first_stage-AtWork :
      (log : Log) (c : PfcpClient) (upf : Server) (job : Job)
      → AtWork log c upf (busy job (first_stage job))
  first_stage-AtWork log c upf job = ground arith

  -- The SMF's part of a run is a run of the SMF.
  pub Reach-smf :
      {max_workers : ℕ} {s t : Core R}
      → Reach repo max_workers s t
      → Service.Reach repo max_workers s.smf t.smf
  Reach-smf here = Service.here
  Reach-smf (next r (requested nanos req small)) =
      Service.next (Reach-smf r) (Service.requested nanos req small)
  Reach-smf (next r (taken i job rest below free first)) =
      Service.next (Reach-smf r) (Service.taken i job rest below free first)
  Reach-smf (next r (moved i env job stage at small)) =
      Service.next (Reach-smf r) (Service.moved i env job stage at)
  Reach-smf (next r (returned i job at)) = Service.next (Reach-smf r) (Service.returned i job at)
  Reach-smf (next r (served bytes sent)) = Reach-smf r
  Reach-smf (next r (received bytes sent)) = Service.next (Reach-smf r) (Service.received bytes)

  busy-Holds :
      (s : Core R) (i : ℕ) (job : Job) (stage : Stage)
      → s.smf.workers i ≡ busy job stage
      → IsConsistent repo s.smf
      → Holds repo s.smf.smf.orc.world.store job stage
  busy-Holds s i job stage at consistent =
      let store = s.smf.smf.orc.world.store in
      (subst (Occupied repo store consistent.place i) at (consistent.at_work i)).3

module _ {R : Type 0} {kept : ℕ → ℕ} (repo : SessionRepository R) (lawful : IsRepository kept repo)
    (reliable : IsReliable repo) where
  Step-IsSound :
      {max_workers : ℕ} {s t : Core R}
      → Step repo max_workers s t
      → IsConsistent repo s.smf
      → (log : Log) → IsSound repo s log
      → (log' : Log) × IsSound repo t log'
  Step-IsSound {s = s} (requested nanos req small) consistent log sound =
      (log, requested-IsSound repo s log nanos req sound)
  Step-IsSound {s = s} (taken i job rest below free first) consistent log sound = (
    log,
    set-IsSound repo s log i (busy job (first_stage job))
        (first_stage-AtWork repo log s.smf.smf.orc.world.pfcp s.upf job) sound,
  )
  Step-IsSound {s = s} (moved i env job stage at small) consistent log sound =
      advance-Sound repo lawful reliable log s.upf s.to_upf s.to_smf s.smf.workers
        s.smf.smf.orc.world sound env i job s.smf.smf.orc.metrics stage at
        (busy-Holds repo s i job stage at consistent) small
  Step-IsSound {s = s} (returned i job at) consistent log sound =
      (log, set-IsSound repo s log i idle tt sound)
  Step-IsSound {s = s} (served bytes sent) consistent log sound =
      (log, served-IsSound repo s log bytes sent sound)
  Step-IsSound {s = s} (received bytes sent) consistent log sound =
      (log, received-IsSound repo s log bytes sent sound)

  Reach-IsSound :
      {max_workers : ℕ} {s t : Core R}
      → Reach repo max_workers s t
      → IsConsistent repo s.smf
      → (log : Log) → IsSound repo s log
      → (log' : Log) × IsSound repo t log'
  Reach-IsSound here consistent log sound = (log, sound)
  Reach-IsSound (next r st) consistent log sound =
      let (log', sound') = Reach-IsSound r consistent log sound in
      Step-IsSound st (Reach-IsConsistent repo lawful reliable (Reach-smf repo r) consistent) log'
        sound'

  -- The SMF and the UPF start, over a store with the laws of a store that never fails and with no
  -- active session. Whatever the UDM and the AMF answer, and however requests that decode,
  -- workers and both receive loops interleave, with datagrams lost, doubled and out of order, as
  -- long as the counters of contexts and of sequence numbers do not wrap: the address of each
  -- session that is active in the store is valid, and the UPF's table has its four bytes under
  -- some sequence number.
  pub Reach-Backed :
      (max_workers queue_size : ℕ) (store : R) (t : Core R) (ref : Text) (s : PduSession)
      → ((other : Text) (old : PduSession)
          → repo.get other store ≡ ok old
          → old.status ≢ active_status)
      → Reach repo max_workers (start_core store queue_size) t
      → repo.get ref t.smf.smf.orc.world.store ≡ ok s
      → s.status ≡ active_status
      → (seq : ℕ) × Stored t.upf seq s.ip_address
  Reach-Backed max_workers queue_size store t ref s none_active r at active =
      let (log, sound) =
        Reach-IsSound r
          (start-IsConsistent repo lawful reliable
            (record { store = store; pfcp = new_client; requests = [] }) queue_size)
          (record { issued = λ seq. []; owner = λ ch. 0 })
          (start-IsSound repo store queue_size none_active) in
      let (seq, same, (below, stored)) = sound.backed ref s at active in
      (seq, subst (Stored t.upf seq) same stored)
