-- ===== src/Smf/Db/Counting.antt =====
-- The counts of the store against the number of sessions that have a property.
use pdu_session_sim.Common.{
  ℕ, ◌+◌, ◌≡◌, refl, ◌∙◌, Option-cases, [], ◌∷◌, none, some, Text, Bool, true, ◌&&◌, ◌||◌, Map,
  lookup, lookup-insert, length, All, ◌==◌, ==_iff, if◌then◌else◌, Bool-cases, inl, inr, arith,
  text_eq,
}
use mathlib.Core.List.{Perm, Permᴰ}
use native.Mathlib.Nat.{ℕ_set}
use mathlib.Core.Logic.{∥∥₁_elim}
use mathlib.Core.Path.{ap₂}
use pdu_session_sim.Models.{PduSession}
use pdu_session_sim.Smf.Db.Interface.{Counts}
use pdu_session_sim.Smf.Db.Status.{active_status, pending_status, creating_status, failed_status}
use pdu_session_sim.Smf.Db.{
  InMemoryRepository, count_status, count_statuses, count_by_status, increment, counts_reason,
  count_reasons, count_by_failure_reason,
}

-- How many sessions pass a test.
unfoldable pub tally : (PduSession → Bool) → Map Text PduSession → ℕ
tally p [] = 0
tally p ((_, s) ∷ m) = (if p s then 1 else 0) + tally p m

abbrev pub is_active : PduSession → Bool
is_active s = s.status == active_status

abbrev pub is_pending : PduSession → Bool
is_pending s = s.status == pending_status || s.status == creating_status

abbrev pub is_failed : PduSession → Bool
is_failed s = s.status == failed_status

count_statuses-tally :
    (m : Map Text PduSession) (c : Counts)
    → count_statuses m c ≡ record {
      active = c.active + tally is_active m;
      pending = c.pending + tally is_pending m;
      failed = c.failed + tally is_failed m;
    }
unfolding count_statuses tally
count_statuses-tally [] c = ground arith
count_statuses-tally ((k, s) ∷ m) c = ground (
  arith,
  count_statuses-tally m (count_status s c),
  ==_iff s.status active_status,
  ==_iff s.status pending_status,
  ==_iff s.status creating_status,
  ==_iff s.status failed_status,
)

-- The three counts are the numbers of sessions whose status is ACTIVE, PENDING or CREATING, and
-- FAILED.
pub count_by_status-tally :
    (r : InMemoryRepository)
    → count_by_status r ≡ record {
      active = tally is_active r.sessions;
      pending = tally is_pending r.sessions;
      failed = tally is_failed r.sessions;
    }
unfolding count_by_status
count_by_status-tally r =
    ground (arith, count_statuses-tally r.sessions (record { active = 0; pending = 0; failed = 0 }))

-- The statuses that the program writes, and PENDING.
abbrev pub HasStatus : PduSession → Type 0
HasStatus s = (is_active s || is_pending s || is_failed s) ≡ true

tally-total :
    (m : Map Text PduSession)
    → All (λ e. HasStatus e.1) m
    → tally is_active m + tally is_pending m + tally is_failed m ≡ length m
unfolding tally
tally-total [] h = omega arith
tally-total ((k, s) ∷ m) h = ground (
  arith,
  tally-total m h.1,
  ==_iff s.status active_status,
  ==_iff s.status pending_status,
  ==_iff s.status creating_status,
  ==_iff s.status failed_status,
)

-- Where each session has a status of the program, every session is counted once.
count_by_status-total :
    (r : InMemoryRepository)
    → All (λ e. HasStatus e.1) r.sessions
    → let c = count_by_status r in c.active + c.pending + c.failed ≡ length r.sessions
count_by_status-total r h = rw (count_by_status-tally r) (tally-total r.sessions h)

tally-Permᴰ :
    (p : PduSession → Bool) {m m' : Map Text PduSession} → Permᴰ m m' → tally p m ≡ tally p m'
unfolding tally
tally-Permᴰ p Permᴰ.nil = refl
tally-Permᴰ p (Permᴰ.cons e d) =
    ap₂ (λ (x : Text × PduSession) (n : ℕ). (if p x.1 then 1 else 0) + n) e (tally-Permᴰ p d)
tally-Permᴰ p (Permᴰ.swap e f) = ground arith
tally-Permᴰ p (Permᴰ.trans d d') = tally-Permᴰ p d ∙ tally-Permᴰ p d'

tally-perm :
    (p : PduSession → Bool) (m m' : Map Text PduSession) → Perm m m' → tally p m ≡ tally p m'
tally-perm p m m' h = ∥∥₁_elim h (ℕ_set _ _) (tally-Permᴰ p)

-- The counts do not depend on the order in which the map is iterated.
count_by_status-perm :
    (r r' : InMemoryRepository)
    → Perm r.sessions r'.sessions
    → count_by_status r ≡ count_by_status r'
count_by_status-perm r r' h = ground (
  arith,
  count_by_status-tally r,
  count_by_status-tally r',
  tally-perm is_active r.sessions r'.sessions h,
  tally-perm is_pending r.sessions r'.sessions h,
  tally-perm is_failed r.sessions r'.sessions h,
)

-- The value under a key, 0 where there is none.
abbrev pub count_of : Text → Map Text ℕ → ℕ
count_of reason counts = elim (lookup reason counts) [ none ↦ 0 | some n ↦ n ]

increment-count_of :
    (reason other : Text) (counts : Map Text ℕ)
    → count_of other (increment reason counts)
      ≡ (if reason == other then 1 else 0) + count_of other counts
unfolding increment
increment-count_of reason other counts = elim (Option-cases (lookup reason counts)) [
  | inl missing ↦ ground (arith, ==_iff reason other, lookup-insert reason other 1 counts)
  | inr (n, found) ↦ ground (arith, ==_iff reason other, lookup-insert reason other (n + 1) counts)
]

-- A failed session that is counted under the reason.
abbrev pub failed_by : Text → PduSession → Bool
failed_by reason s = counts_reason s && s.failure_reason == reason

count_reasons-count_of :
    (reason : Text) (m : Map Text PduSession) (counts : Map Text ℕ)
    → count_of reason (count_reasons m counts) ≡ count_of reason counts + tally (failed_by reason) m
unfolding count_reasons tally
count_reasons-count_of reason [] counts = omega arith
count_reasons-count_of reason ((k, s) ∷ m) counts = elim (Bool-cases (counts_reason s)) [
  | inl counted ↦ rw counted (
      omega (
        arith,
        count_reasons-count_of reason m (increment s.failure_reason counts),
        increment-count_of s.failure_reason reason counts,
      ))
  | inr skipped ↦ rw skipped (omega (arith, count_reasons-count_of reason m counts))
]

-- The count under a reason is the number of FAILED sessions with that reason, where the reason is
-- not empty; sessions that failed without one are left out.
count_by_failure_reason-count_of :
    (reason : Text) (r : InMemoryRepository)
    → count_of reason (count_by_failure_reason r) ≡ tally (failed_by reason) r.sessions
unfolding count_by_failure_reason lookup
count_by_failure_reason-count_of reason r =
    omega (arith, count_reasons-count_of reason r.sessions [])
