-- ===== src/Smf/Concurrent/Pending.antt =====
-- Which calls are pending in an SMF at work (`SendSessionEstablishmentRequest` of
-- internal/smf/pfcp_client.go in the workers of internal/smf/service.go).
use pdu_session_sim.Common.{
  ℕ, ◌<◌, ◌≡◌, ◌≢◌, ◌⊎◌, inl, inr, refl, sym, ap, subst, ◌∙◌, List, Text, none, some, Option-cases,
  Map, lookup, lookup-insert_cases, lookup-delete_cases, Result-cases, nat_eq, arith,
}
use pdu_session_sim.Pfcp.{encode_request}
use pdu_session_sim.Smf.Concurrent.Accounts.{below-busy, start-Accounted, Reach-Accounted}
use pdu_session_sim.Smf.Concurrent.Ends.{start}
use pdu_session_sim.Smf.Concurrent.Places.{set_self, set_other}
use pdu_session_sim.Smf.Concurrent.Service.{
  Service, Worker, idle, busy, set, first_stage, Step, requested, taken, moved, returned, received,
  Reach, here, next,
}
use pdu_session_sim.Smf.Concurrent.Stages.{
  Stage, saving, validating, establishing, activating, transferring, succeeding, finished, waiting,
  failing, marking, notifying, advance, begin_call, end_call,
}
use pdu_session_sim.Smf.Db.Interface.{SessionRepository}
use pdu_session_sim.Smf.Handler.Laws.{create_sm_context-Outcome}
use pdu_session_sim.Smf.Orchestrator.Establishment.Laws.{
  validate_subscription-store, transfer_active-store,
}
use pdu_session_sim.Smf.Orchestrator.Notify.{notify_amf_session_failure}
use pdu_session_sim.Smf.Orchestrator.State.{Job, Metrics, World, Surroundings}
use pdu_session_sim.Smf.Orchestrator.Worker.{init_orchestrator}
use pdu_session_sim.Smf.PfcpClient.{
  PfcpClient, next_seq, register, unregister, handle_response, offer,
}

-- A worker waits in a call, with its sequence number and its channel.
abbrev pub WaitsAt : (ℕ → Worker) → ℕ → ℕ → ℕ → Type 0
WaitsAt workers i seq ch =
    (job : Job) × (bytes : List ℕ) × (workers i ≡ busy job (waiting bytes seq ch))

abbrev AllAwaited : (ℕ → Worker) → Map ℕ ℕ → Type 0
AllAwaited workers pending =
    (seq ch : ℕ) → lookup seq pending ≡ some ch → (i : ℕ) × WaitsAt workers i seq ch

-- What a worker's stage leaves pending: its own next wait, or what was pending and not its own.
abbrev Left : Stage → Stage → Map ℕ ℕ → Map ℕ ℕ → Type 0
Left stage following pending pending' =
    (seq ch : ℕ)
    → lookup seq pending' ≡ some ch
    → ((bytes : List ℕ) × (following ≡ waiting bytes seq ch))
      ⊎ ((lookup seq pending ≡ some ch) × ((bytes : List ℕ) → stage ≢ waiting bytes seq ch))

-- A stage that is in no call.
abbrev IsOutside : Stage → Type 0
IsOutside (waiting bytes seq ch) = ⊥
IsOutside _ = Unit

set-AllAwaited :
    (workers : ℕ → Worker) (i : ℕ) (worker : Worker) (pending : Map ℕ ℕ)
    → ((seq ch : ℕ) → WaitsAt workers i seq ch → lookup seq pending ≢ some ch)
    → AllAwaited workers pending
    → AllAwaited (set workers i worker) pending
set-AllAwaited workers i worker pending free all seq ch at =
    let (j, (job, bytes, waits)) = all seq ch at in
    (
      j,
      (
        job,
        bytes,
        set_other workers i j worker (λ e.
              free seq ch (subst (λ k. WaitsAt workers k seq ch) (sym e) (job, bytes, waits)) at)
            ∙ waits,
      ),
    )

moved-AllAwaited :
    (workers : ℕ → Worker) (i : ℕ) (job : Job) (stage following : Stage)
    (pending pending' : Map ℕ ℕ)
    → workers i ≡ busy job stage
    → Left stage following pending pending'
    → AllAwaited workers pending
    → AllAwaited (set workers i (busy job following)) pending'
moved-AllAwaited workers i job stage following pending pending' at left all seq ch found =
    elim (left seq ch found) [
      | inl (bytes, mine) ↦
          (i, (job, bytes, set_self workers i (busy job following) ∙ ap (busy job) mine))
      | inr (old, others) ↦
          let (j, (job', bytes, waits)) = all seq ch old in
          (
            j,
            (
              job',
              bytes,
              set_other workers i j (busy job following)
                    (λ e. others bytes (ground (arith, e, at, waits)))
                  ∙ waits,
            ),
          )
    ]

begin_call-Left :
    (env : Surroundings) (ip : Text) (c : PfcpClient)
    → Left establishing (begin_call env ip c).1 c.pending (begin_call env ip c).0.pending
unfolding begin_call next_seq register unregister
begin_call-Left env ip c seq ch =
    let new = (next_seq c).seq_counter in
    elim (Result-cases (encode_request 50 new ip)) [
      | inl (e, refused) ↦
          rw (refused, begin_call) (λ found. inr (found, λ bytes same. ground (arith, same)))
      | inr (bytes, encoded) ↦ elim (Option-cases (env.exchange bytes).write_error) [
        | inr (e, unwritten) ↦
            rw (encoded, unwritten, begin_call)
              (λ found.
                let (new_ne, inserted) =
                  lookup-delete_cases new seq ch (register new (next_seq c)).pending found in
                elim (lookup-insert_cases new seq c.next_channel ch c.pending inserted) [
                  | inl (e, _) ↦ absurd (new_ne e)
                  | inr (_, old) ↦ inr (old, λ bytes' same. ground (arith, same))
                ])
        | inl written ↦
            rw (encoded, written, begin_call)
              (λ found. elim (lookup-insert_cases new seq c.next_channel ch c.pending found) [
                | inl (e, e') ↦ inl (bytes, ground (arith, e, e'))
                | inr (_, old) ↦ inr (old, λ bytes' same. ground (arith, same))
              ])
      ]
    ]

module _ {R : Type 0} (repo : SessionRepository R) (env : Surroundings) (job : Job) (w : World R)
    (m : Metrics) where
  abbrev LeftBy : Stage → Type 0
  LeftBy stage =
      Left stage (advance repo env job stage w m).2 w.pfcp.pending
        (advance repo env job stage w m).0.pfcp.pending

  -- A stage that is in no call leaves all that was pending.
  untouched :
      (stage following : Stage) (c' : PfcpClient)
      → c' ≡ w.pfcp
      → IsOutside stage
      → Left stage following w.pfcp.pending c'.pending
  untouched stage following c' same outside seq ch found = inr (
    subst (λ (c : PfcpClient). lookup seq c.pending ≡ some ch) same found,
    λ bytes e. subst IsOutside e outside,
  )

  notify_amf_session_failure-pfcp :
      (reason e : Text)
      → (notify_amf_session_failure env.network repo job.sm_context_ref job.supi reason e w).pfcp
        ≡ w.pfcp
  unfolding notify_amf_session_failure
  notify_amf_session_failure-pfcp reason e = ground arith

  advance-Left : (stage : Stage) → LeftBy stage
  unfolding advance end_call unregister
  advance-Left (waiting bytes seq ch) s j found =
      let (ne, old) = lookup-delete_cases seq s j w.pfcp.pending found in
      inr (old, λ bytes' same. ne (ground (arith, same)))
  advance-Left establishing s j found = begin_call-Left env job.ip_address w.pfcp s j found
  advance-Left validating s j found =
      untouched validating _ _ (validate_subscription-store repo env job.supi job w).1 tt s j found
  advance-Left transferring s j found =
      untouched transferring _ _
        (transfer_active-store repo env job.sm_context_ref job.supi job w).1 tt s j found
  advance-Left (notifying reason e) s j found =
      untouched (notifying reason e) _ _ (notify_amf_session_failure-pfcp reason e) tt s j found
  advance-Left saving s j found = untouched saving _ _ refl tt s j found
  advance-Left activating s j found = untouched activating _ _ refl tt s j found
  advance-Left succeeding s j found = untouched succeeding _ _ refl tt s j found
  advance-Left (failing e) s j found = untouched (failing e) _ _ refl tt s j found
  advance-Left (marking e) s j found = untouched (marking e) _ _ refl tt s j found
  advance-Left finished s j found = untouched finished _ _ refl tt s j found

pending-handle_response :
    (bytes : List ℕ) (c : PfcpClient) → (handle_response bytes c).pending ≡ c.pending
unfolding handle_response offer
pending-handle_response bytes c = ground arith

module _ {R : Type 0} (repo : SessionRepository R) (max_workers : ℕ) where
  abbrev AreAwaited : Service R → Type 0
  AreAwaited s = AllAwaited s.workers s.smf.orc.world.pfcp.pending

  Step-AreAwaited : {s t : Service R} → Step repo max_workers s t → AreAwaited s → AreAwaited t
  Step-AreAwaited {s = s} (requested nanos req small) all =
      let (same, _, _, _) = create_sm_context-Outcome nanos req s.smf in
      subst (λ (w : World R). AllAwaited s.workers w.pfcp.pending) (sym same) all
  Step-AreAwaited {s = s} (taken i job rest below free first) all =
      set-AllAwaited s.workers i (busy job (first_stage job)) s.smf.orc.world.pfcp.pending
        (λ seq ch (job', bytes, waits) found. ground (arith, free, waits)) all
  Step-AreAwaited {s = s} (moved i env job stage at) all =
      moved-AllAwaited s.workers i job stage _ _ _ at
        (advance-Left repo env job s.smf.orc.world s.smf.orc.metrics stage) all
  Step-AreAwaited {s = s} (returned i job at) all =
      set-AllAwaited s.workers i idle s.smf.orc.world.pfcp.pending
        (λ seq ch (job', bytes, waits) found. ground (arith, at, waits)) all
  Step-AreAwaited {s = s} (received bytes) all =
      subst (AllAwaited s.workers) (sym (pending-handle_response bytes s.smf.orc.world.pfcp)) all

  Reach-AreAwaited : {s t : Service R} → Reach repo max_workers s t → AreAwaited s → AreAwaited t
  Reach-AreAwaited here all = all
  Reach-AreAwaited (next r st) all = Step-AreAwaited st (Reach-AreAwaited r all)

  -- However requests that decode, workers and datagrams interleave, as long as the counter of
  -- contexts does not wrap, from a start with no call pending: each sequence number that is
  -- pending belongs to one of the workers, which waits in its call at that moment, with that
  -- number and the channel that is pending under it. No call leaves its number behind, also where
  -- sequence numbers come again.
  pub Reach-Awaited :
      (queue_size : ℕ) (w : World R) (s : Service R) (seq ch : ℕ)
      → ((k : ℕ) → lookup k w.pfcp.pending ≡ none)
      → Reach repo max_workers (start w queue_size) s
      → lookup seq s.smf.orc.world.pfcp.pending ≡ some ch
      → (i : ℕ) × (i < max_workers) × WaitsAt s.workers i seq ch
  unfolding init_orchestrator
  Reach-Awaited queue_size w s seq ch none_pending r found =
      let (i, (job, bytes, waits)) =
        Reach-AreAwaited r (λ k j h. absurd (ground (arith, h, none_pending k))) seq ch found in
      let accounted =
        Reach-Accounted repo max_workers r (start-Accounted repo max_workers w queue_size) in
      (
        i,
        below-busy repo max_workers s i job (waiting bytes seq ch) accounted waits,
        (job, bytes, waits),
      )
