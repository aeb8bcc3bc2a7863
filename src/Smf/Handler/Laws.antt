-- ===== src/Smf/Handler/Laws.antt =====
-- What `CreateSMContext` replies, and what it has done then.
use pdu_session_sim.Common.{ℕ, ◌+◌, ◌%◌, ◌^◌, ◌<◌, ◌≤◌, ◌≡◌, ◌⊎◌, [], ◌∷◌, ◌++◌, ok, length, arith}
use pdu_session_sim.Models.{CreateSmContextRequest}
use pdu_session_sim.Smf.Handler.{
  Smf, job_of, accepted_reply, congestion_reply, accept_context, create_sm_context,
}
use pdu_session_sim.Smf.Handler.Refs.{next_ref}
use pdu_session_sim.Smf.Orchestrator.Worker.{allocate_ip, enqueue_job, count_failure}
use pdu_session_sim.Smf.Orchestrator.Worker.Addresses.{next_value}

-- What comes of a request that decodes. It is answered 201 with the reference of a job that is now last
-- in the queue, or 503, by the room in the queue.
abbrev pub Outcome : {R : Type 0} → ℕ → CreateSmContextRequest → Smf R → Type 0
Outcome nanos req s =
    let (s', reply) = create_sm_context nanos (ok req) s in
    let ref = next_ref nanos s in
    let ip = (allocate_ip s.orc).1 in
    (s'.orc.world ≡ s.orc.world)
    × (s'.sm_context_counter ≡ (s.sm_context_counter + 1) % 2 ^ 64)
    × (s'.orc.ip_counter ≡ next_value s.orc)
    × (((length s.orc.job_queue < s.orc.queue_size)
          × (reply ≡ accepted_reply ref)
          × (s'.orc.job_queue ≡ s.orc.job_queue ++ job_of ref ip req ∷ [])
          × (s'.orc.metrics ≡ s.orc.metrics))
        ⊎ ((s.orc.queue_size ≤ length s.orc.job_queue)
            × (reply ≡ congestion_reply)
            × (s'.orc.job_queue ≡ s.orc.job_queue)
            × (s'.orc.metrics ≡ count_failure s.orc.metrics)))

pub create_sm_context-Outcome :
    {R : Type 0} (nanos : ℕ) (req : CreateSmContextRequest) (s : Smf R) → Outcome nanos req s
unfolding create_sm_context accept_context allocate_ip enqueue_job
create_sm_context-Outcome nanos req s = ground arith

-- With a queue of at least one place, a request that decodes is answered 201 with the reference of a job
-- that is now last in the queue, if the queue has room, and 503 with an unchanged queue and a failure
-- counted, if it is full. The store, the PFCP client and the AMF are not touched; the counter and the
-- address counter go on in both cases.
pub create_sm_context-outcome :
    {R : Type 0} (nanos : ℕ) (req : CreateSmContextRequest) (s : Smf R)
    → 0 < s.orc.queue_size
    → let (s', reply) = create_sm_context nanos (ok req) s in
      let ref = next_ref nanos s in
      let ip = (allocate_ip s.orc).1 in
      (s'.orc.world ≡ s.orc.world)
      × (s'.sm_context_counter ≡ (s.sm_context_counter + 1) % 2 ^ 64)
      × (s'.orc.ip_counter ≡ next_value s.orc)
      × (((length s.orc.job_queue < s.orc.queue_size)
            × (reply ≡ accepted_reply ref)
            × (s'.orc.job_queue ≡ s.orc.job_queue ++ job_of ref ip req ∷ [])
            × (s'.orc.metrics ≡ s.orc.metrics))
          ⊎ ((0 < length s.orc.job_queue)
              × (s.orc.queue_size ≤ length s.orc.job_queue)
              × (reply ≡ congestion_reply)
              × (s'.orc.job_queue ≡ s.orc.job_queue)
              × (s'.orc.metrics ≡ count_failure s.orc.metrics)))
create_sm_context-outcome nanos req s buffered =
    ground (arith, create_sm_context-Outcome nanos req s)
