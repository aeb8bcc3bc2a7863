-- ===== src/LoadTest/Tests.antt =====
-- A load test of three requests.
use pdu_session_sim.Common.{
  ℕ, zero, suc, ◌+◌, ◌*◌, ◌≤◌, leb, if◌then◌else◌, length, arith, ◌≡◌, refl, List, [], ◌∷◌, text,
}
use pdu_session_sim.LoadTest.Ingress.{
  ticked, timed_out, launched, ticks, latency_report, percentiles, latency_report-ordered,
}
use pdu_session_sim.LoadTest.{
  Tally, no_request, finish_all, batch_size, Answer, no_answer, answered, Stats, stats, reported,
  wait,
}

twenty_a_tick : batch_size ≡ 20
twenty_a_tick = refl

-- Two sessions of three are in the store, and none is pending.
abbrev idle_stats : Stats
idle_stats = record { active = 2; pending = 0; failed = 0; failure_breakdown = [] }

-- Jobs in the queue are in no session yet: the wait ends although one of three is missing.
ends_early : wait 3 (stats idle_stats ∷ []) ≡ reported idle_stats
unfolding wait
ends_early = refl

-- One tick of twenty requests, of which two succeed.
abbrev times : ℕ → Answer → List Answer
times zero a = []
times (suc n) a = a ∷ times n a

abbrev answers : List Answer
answers = answered 201 30 ∷ answered 201 12 ∷ answered 503 3 ∷ times 17 (no_answer (text "timeout"))

abbrev tally : Tally
tally = record { success_count = 2; error_count = 18; latencies = 30 ∷ 12 ∷ [] }

abbrev insert_sorted : ℕ → List ℕ → List ℕ
insert_sorted x [] = x ∷ []
insert_sorted x (y ∷ ys) =
    let later = insert_sorted x ys in if leb x y then x ∷ (y ∷ ys) else y ∷ later

abbrev insertion_sort : List ℕ → List ℕ
insertion_sort [] = []
insertion_sort (x ∷ xs) = insert_sorted x (insertion_sort xs)

all_launched : length answers ≡ launched (ticked ∷ timed_out ∷ ticked ∷ [])
unfolding launched
all_launched = refl

tallied : finish_all answers no_request ≡ tally
unfolding finish_all
tallied = refl

two_latencies :
    (tally.success_count + tally.error_count ≡ 20 * ticks (ticked ∷ timed_out ∷ ticked ∷ []))
    × (p50 : ℕ) × (p90 : ℕ) × (p99 : ℕ) × (latency_report insertion_sort tally.latencies
        ≡ percentiles p50 p90 p99)
    × (p50 ≤ p90)
    × (p90 ≤ p99)
two_latencies =
    latency_report-ordered insertion_sort (ticked ∷ timed_out ∷ ticked ∷ []) answers tally
      all_launched tallied refl (omega arith) (omega arith)
