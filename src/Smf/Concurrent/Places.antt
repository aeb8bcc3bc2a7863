-- ===== src/Smf/Concurrent/Places.antt =====
-- Where each context's job is, by the number of its context: in the queue, with a worker, or done
-- (internal/smf/handler.go and service.go).
use pdu_session_sim.Common.{
  ℕ, ◌<◌, ◌≤◌, ◌≡◌, ◌≢◌, ◌⊎◌, inl, inr, sym, subst, Bool-cases, ◌∙◌, List, [], ◌∷◌, ◌++◌, arith,
  nat_beq, nat_beq_iff,
}
use pdu_session_sim.Smf.Concurrent.Holds.{Has, Holds, IsActive, IsFailed}
use pdu_session_sim.Smf.Concurrent.Stages.{Stage, saving}
use pdu_session_sim.Smf.Concurrent.Service.{Worker, idle, busy, set}
use pdu_session_sim.Smf.Db.Interface.{SessionRepository}
use pdu_session_sim.Smf.Handler.{context_ref}
use pdu_session_sim.Smf.Handler.Refs.{context_ref-injective}
use pdu_session_sim.Smf.Orchestrator.State.{Job, job_establish}

pub data Place : Type 0 where
  nowhere queued ended : Place
  held_by : ℕ → Place

-- The job of the context with a number.
abbrev pub Numbered : Job → ℕ → Type 0
Numbered job c =
    (job.type ≡ job_establish) × (nanos : ℕ) × (job.sm_context_ref ≡ context_ref nanos c)

-- The jobs of the queue, in the order of their numbers.
abbrev pub Queued : (ℕ → Place) → ℕ → List Job → Type 0
Queued place low [] = Unit
Queued place low (job ∷ rest) =
    (c : ℕ) × Numbered job c × (low < c) × (place c ≡ queued) × Queued place c rest

-- A session has ended.
abbrev pub Ended : {R : Type 0} → SessionRepository R → R → Job → Type 0
Ended repo store job = Has repo store job.sm_context_ref (λ s. IsActive job s ⊎ IsFailed s)

module _ {R : Type 0} (repo : SessionRepository R) where
  abbrev pub Occupied : R → (ℕ → Place) → ℕ → Worker → Type 0
  Occupied store place i idle = Unit
  Occupied store place i (busy job stage) =
      (c : ℕ) × Numbered job c × (place c ≡ held_by i) × Holds repo store job stage

  abbrev pub IsDone : R → (ℕ → Place) → Job → Type 0
  IsDone store place job = (c : ℕ) × Numbered job c × (place c ≡ ended) × Ended repo store job

-- Contexts with different numbers have different references.
pub Numbered-distinct :
    (job other : Job) (c d : ℕ)
    → Numbered job c
    → Numbered other d
    → c ≢ d
    → job.sm_context_ref ≢ other.sm_context_ref
Numbered-distinct job other c d (_, nanos, e) (_, nanos', e') ne same =
    ne (context_ref-injective nanos nanos' c d (sym e ∙ same ∙ e')).1

pub set_self : {A : Type 0} (f : ℕ → A) (i : ℕ) (a : A) → set f i a i ≡ a
set_self f i a = ground (arith, nat_beq_iff i i)

pub set_other : {A : Type 0} (f : ℕ → A) (i j : ℕ) (a : A) → i ≢ j → set f i a j ≡ f j
set_other f i j a ne = ground (arith, nat_beq_iff i j)

pub Queued-imp :
    (place place' : ℕ → Place) (low low' : ℕ) (jobs : List Job)
    → low' ≤ low
    → ((c : ℕ) → low < c → place c ≡ queued → place' c ≡ queued)
    → Queued place low jobs
    → Queued place' low' jobs
Queued-imp place place' low low' [] lower keeps q = tt
Queued-imp place place' low low' (job ∷ rest) lower keeps (c, numbered, above, at, q) = (
  c,
  numbered,
  omega arith,
  keeps c above at,
  Queued-imp place place' c c rest (omega arith) (λ d more. keeps d (omega arith)) q,
)

-- A job with a number above all others goes to the end.
pub Queued-append :
    (place : ℕ → Place) (low c : ℕ) (jobs : List Job) (job : Job)
    → Numbered job c
    → low < c
    → ((d : ℕ) → place d ≡ queued → d < c)
    → Queued place low jobs
    → Queued (set place c queued) low (jobs ++ job ∷ [])
Queued-append place low c [] job numbered above less q =
    (c, numbered, above, set_self place c queued, tt)
Queued-append place low c (first ∷ rest) job numbered above less (d, number, over, at, q) = (
  d,
  number,
  over,
  set_other place c d queued (λ e. omega (arith, less d at, e)) ∙ at,
  Queued-append place d c rest job numbered (less d at) less q,
)

-- A store that answers alike for a job's reference holds the same of it.
pub Holds-get :
    {R : Type 0} (repo : SessionRepository R) (store store' : R) (job : Job) (stage : Stage)
    → repo.get job.sm_context_ref store' ≡ repo.get job.sm_context_ref store
    → Holds repo store job stage
    → Holds repo store' job stage
Holds-get repo store store' job saving same holds = tt
Holds-get repo store store' job stage same (s, at, p) = (s, same ∙ at, p)

-- One worker and the others, after one is set.
pub Occupied-set :
    {R : Type 0} (repo : SessionRepository R) (store : R) (place : ℕ → Place) (workers : ℕ → Worker)
    (i : ℕ) (worker : Worker)
    → Occupied repo store place i worker
    → ((j : ℕ) → i ≢ j → Occupied repo store place j (workers j))
    → (j : ℕ) → Occupied repo store place j (set workers i worker j)
Occupied-set repo store place workers i worker own others j = elim (Bool-cases (nat_beq i j)) [
  | inl same ↦
      subst (λ k. Occupied repo store place k (set workers i worker k)) ((nat_beq_iff i j).0 same)
        (subst (Occupied repo store place i) (sym (set_self workers i worker)) own)
  | inr other ↦
      let ne : i ≢ j = λ e. ground (arith, e, other, nat_beq_iff i j) in
      subst (Occupied repo store place j) (sym (set_other workers i j worker ne)) (others j ne)
]
