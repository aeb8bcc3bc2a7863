-- ===== src/Smf/Concurrent/Invariant.antt =====
-- Every reachable SMF is consistent: each job has one place, and the store holds what that place says
-- (internal/smf).
use pdu_session_sim.Common.{
  ℕ, ◌+◌, ◌<◌, ◌≡◌, ◌≢◌, refl, sym, ap, subst, ◌∙◌, List, [], ◌∷◌, ◌++◌, Text, All, arith,
}
use native.Mathlib.Decide.{dec_lt}
use pdu_session_sim.Smf.Concurrent.Holds.{Holds}
use pdu_session_sim.Smf.Concurrent.Places.{
  Place, nowhere, queued, ended, held_by, Numbered, Queued, Occupied, IsDone, Numbered-distinct,
  set_self, set_other, Queued-imp, Queued-append, Holds-get, Occupied-set,
}
use pdu_session_sim.Smf.Concurrent.Service.{Service, Worker, idle, busy, set, first_stage}
use pdu_session_sim.Smf.Concurrent.Stages.{Stage, saving, finished}
use pdu_session_sim.Smf.Db.Interface.{SessionRepository}
use pdu_session_sim.Smf.Orchestrator.State.{Job, job_establish}

-- The jobs' places, over the parts of the service that they are about.
pub record Consistent {R : Type 0} (repo : SessionRepository R) (store : R) (counter : ℕ)
    (queue : List Job) (workers : ℕ → Worker) (jobs_done : List Job) : Type 0 where
  pub place : ℕ → Place
  pub unknown : (c : ℕ) → counter < c → place c ≡ nowhere
  pub in_queue : Queued place 0 queue
  pub at_work : (i : ℕ) → Occupied repo store place i (workers i)
  pub at_end : All (IsDone repo store place) jobs_done

abbrev pub IsConsistent : {R : Type 0} → SessionRepository R → Service R → Type 0
IsConsistent repo s =
    Consistent repo s.smf.orc.world.store s.smf.sm_context_counter s.smf.orc.job_queue s.workers
      s.jobs_done

module _ {R : Type 0} (repo : SessionRepository R) where
  Occupied-imp :
      (store store' : R) (place place' : ℕ → Place) (i : ℕ) (worker : Worker)
      → ((job : Job) (c : ℕ)
          → Numbered job c
          → place c ≡ held_by i
          → (place' c ≡ held_by i)
            × (repo.get job.sm_context_ref store' ≡ repo.get job.sm_context_ref store))
      → Occupied repo store place i worker
      → Occupied repo store' place' i worker
  Occupied-imp store store' place place' i idle keeps o = tt
  Occupied-imp store store' place place' i (busy job stage) keeps (c, number, at, holds) =
      let (at', same) = keeps job c number at in
      (c, number, at', Holds-get repo store store' job stage same holds)

  IsDone-imp :
      (store store' : R) (place place' : ℕ → Place) (jobs : List Job)
      → ((job : Job) (c : ℕ)
          → Numbered job c
          → place c ≡ ended
          → (place' c ≡ ended)
            × (repo.get job.sm_context_ref store' ≡ repo.get job.sm_context_ref store))
      → All (IsDone repo store place) jobs
      → All (IsDone repo store' place') jobs
  IsDone-imp store store' place place' [] keeps all = tt
  IsDone-imp store store' place place' (job ∷ jobs) keeps ((c, number, at, (s, found, p)), all) =
      let (at', same) = keeps job c number at in
      ((c, number, at', (s, same ∙ found, p)), IsDone-imp store store' place place' jobs keeps all)

  first_stage_of_establish : (job : Job) → job.type ≡ job_establish → saving ≡ first_stage job
  first_stage_of_establish job kind = ground (arith, kind)

  module _ (store : R) (counter : ℕ) (queue : List Job) (workers : ℕ → Worker)
      (jobs_done : List Job) (sound : Consistent repo store counter queue workers jobs_done) where
    -- A request that is refused takes a number all the same.
    pub refused-Consistent : Consistent repo store (counter + 1) queue workers jobs_done
    refused-Consistent = record {
      place = sound.place;
      unknown = λ c above. sound.unknown c (omega arith);
      in_queue = sound.in_queue;
      at_work = sound.at_work;
      at_end = sound.at_end;
    }

    at_most : (c : ℕ) → sound.place c ≢ nowhere → c < counter + 1
    at_most c known = elim (dec_lt c (counter + 1)) [
      | yes below ↦ below
      | no above ↦ absurd (known (sound.unknown c (omega (arith, above))))
    ]

    -- A new number takes no other job's place.
    kept_place :
        (c : ℕ) (p : Place)
        → sound.place c ≡ p
        → p ≢ nowhere
        → set sound.place (counter + 1) queued c ≡ p
    kept_place c p at known =
        set_other sound.place (counter + 1) c queued
          (λ e. omega (arith, at_most c (λ away. known (sym at ∙ away)), e))
        ∙ at

    pub accepted-Consistent :
        (job : Job)
        → Numbered job (counter + 1)
        → Consistent repo store (counter + 1) (queue ++ job ∷ []) workers jobs_done
    accepted-Consistent job number = record {
      place = set sound.place (counter + 1) queued;
      unknown = λ c above.
          set_other sound.place (counter + 1) c queued (λ e. omega (arith, above, e))
          ∙ sound.unknown c (omega (arith, above));
      in_queue =
          Queued-append sound.place 0 (counter + 1) queue job number (omega arith)
            (λ d at. at_most d (λ away. ground (arith, at, away))) sound.in_queue;
      at_work = λ i.
          Occupied-imp store store sound.place (set sound.place (counter + 1) queued) i (workers i)
            (λ job' c number' at. (kept_place c (held_by i) at (λ e. ground (arith, e)), refl))
            (sound.at_work i);
      at_end =
          IsDone-imp store store sound.place (set sound.place (counter + 1) queued) jobs_done
            (λ job' c number' at. (kept_place c ended at (λ e. ground (arith, e)), refl))
            sound.at_end;
    }

    -- The first job of the queue goes to a worker.
    pub taken-Consistent :
        (i : ℕ) (job : Job) (rest : List Job)
        → workers i ≡ idle
        → queue ≡ job ∷ rest
        → Consistent repo store counter rest (set workers i (busy job (first_stage job))) jobs_done
    taken-Consistent i job rest free first =
        let (c, number, above, at, more) = subst (Queued sound.place 0) first sound.in_queue in
        let other_place : (d : ℕ) (p : Place)
            → sound.place d ≡ p
            → p ≢ queued
            → set sound.place c (held_by i) d ≡ p =
          λ d p at' ne.
            set_other sound.place c d (held_by i) (λ e. ground (arith, at, at', e, ne)) ∙ at' in
        record {
          place = set sound.place c (held_by i);
          unknown = λ d over. other_place d nowhere (sound.unknown d over) (λ e. ground (arith, e));
          in_queue =
              Queued-imp sound.place (set sound.place c (held_by i)) c 0 rest (omega arith)
                (λ d over at'.
                  set_other sound.place c d (held_by i) (λ e. omega (arith, over, e)) ∙ at')
                more;
          at_work =
              Occupied-set repo store (set sound.place c (held_by i)) workers i
                (busy job (first_stage job))
                (
                  c,
                  number,
                  set_self sound.place c (held_by i),
                  subst (Holds repo store job) (first_stage_of_establish job number.0) tt,
                )
                (λ j ne.
                  Occupied-imp store store sound.place (set sound.place c (held_by i)) j (workers j)
                    (λ job' d number' at'.
                      (other_place d (held_by j) at' (λ e. ground (arith, e)), refl))
                    (sound.at_work j));
          at_end =
              IsDone-imp store store sound.place (set sound.place c (held_by i)) jobs_done
                (λ job' d number' at'. (other_place d ended at' (λ e. ground (arith, e)), refl))
                sound.at_end;
        }

    -- A worker's job, as the invariant knows it.
    abbrev Held : ℕ → Job → Stage → Type 0
    Held i job stage =
        (c : ℕ) × Numbered job c × (sound.place c ≡ held_by i) × Holds repo store job stage

    held : (i : ℕ) (job : Job) (stage : Stage) → workers i ≡ busy job stage → Held i job stage
    held i job stage at = subst (Occupied repo store sound.place i) at (sound.at_work i)

    -- A worker does a stage of its job, and the store changes for no other reference.
    pub moved-Consistent :
        (i : ℕ) (job : Job) (stage following : Stage) (store' : R)
        → workers i ≡ busy job stage
        → ((other : Text)
            → job.sm_context_ref ≢ other
            → repo.get other store' ≡ repo.get other store)
        → (Holds repo store job stage → Holds repo store' job following)
        → Consistent repo store' counter queue (set workers i (busy job following)) jobs_done
    moved-Consistent i job stage following store' at others keeps =
        let (c, number, here_at, holds) = held i job stage at in
        let same : (job' : Job) (d : ℕ)
            → Numbered job' d
            → sound.place d ≢ held_by i
            → repo.get job'.sm_context_ref store' ≡ repo.get job'.sm_context_ref store =
          λ job' d number' ne. others job'.sm_context_ref (
            Numbered-distinct job job' c d number number'
              (λ e. ne (ap sound.place (sym e) ∙ here_at))) in
        record {
          place = sound.place;
          unknown = sound.unknown;
          in_queue = sound.in_queue;
          at_work =
              Occupied-set repo store' sound.place workers i (busy job following)
                (c, number, here_at, keeps holds)
                (λ j ne.
                  Occupied-imp store store' sound.place sound.place j (workers j)
                    (λ job' d number' at'.
                      (at', same job' d number' (λ e. ground (arith, e, at', ne))))
                    (sound.at_work j));
          at_end =
              IsDone-imp store store' sound.place sound.place jobs_done
                (λ job' d number' at'. (at', same job' d number' (λ e. ground (arith, e, at'))))
                sound.at_end;
        }

    -- A finished job leaves its worker.
    pub returned-Consistent :
        (i : ℕ) (job : Job)
        → workers i ≡ busy job finished
        → Consistent repo store counter queue (set workers i idle) (job ∷ jobs_done)
    returned-Consistent i job at =
        let (c, number, here_at, ends) = held i job finished at in
        let other_place : (d : ℕ) (p : Place)
            → sound.place d ≡ p
            → p ≢ held_by i
            → set sound.place c ended d ≡ p =
          λ d p at' ne.
            set_other sound.place c d ended (λ e. ground (arith, here_at, at', e, ne)) ∙ at' in
        record {
          place = set sound.place c ended;
          unknown = λ d over. other_place d nowhere (sound.unknown d over) (λ e. ground (arith, e));
          in_queue =
              Queued-imp sound.place (set sound.place c ended) 0 0 queue (omega arith)
                (λ d over at'. other_place d queued at' (λ e. ground (arith, e))) sound.in_queue;
          at_work = Occupied-set repo store (set sound.place c ended) workers i idle tt (λ j ne.
              Occupied-imp store store sound.place (set sound.place c ended) j (workers j)
                (λ job' d number' at'.
                  (other_place d (held_by j) at' (λ e. ground (arith, e, ne)), refl))
                (sound.at_work j));
          at_end = (
            (c, number, set_self sound.place c ended, ends),
            IsDone-imp store store sound.place (set sound.place c ended) jobs_done
                (λ job' d number' at'. (other_place d ended at' (λ e. ground (arith, e)), refl))
                sound.at_end,
          );
        }
