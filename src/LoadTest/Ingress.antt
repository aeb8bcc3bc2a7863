-- ===== src/LoadTest/Ingress.antt =====
-- The first part of the load test (run_load.go): the requests that its ticker fires until its timer does,
-- and the percentiles of their latencies.
use pdu_session_sim.Common.{
  ℕ, subst, zero, suc, ◌+◌, ◌*◌, ◌/◌, ◌<◌, ◌≤◌, ◌≡◌, refl, List, [], ◌∷◌, Option, none, some, All,
  length, arith,
}
use pdu_session_sim.LoadTest.{batch_size, Answer, Tally, no_request, finish_all}
use pdu_session_sim.LoadTest.Laws.{finish_all-counted}

-- What the `select` of the loop takes.
pub data Moment : Type 0 where
  ticked timed_out : Moment

-- How many goroutines the loop starts.
unfoldable pub launched : List Moment → ℕ
launched [] = 0
launched (timed_out ∷ _) = 0
launched (ticked ∷ rest) = batch_size + launched rest

abbrev pub ticks : List Moment → ℕ
ticks [] = 0
ticks (timed_out ∷ _) = 0
ticks (ticked ∷ rest) = suc (ticks rest)

abbrev pub get_elem? : {A : Type 0} → List A → ℕ → Option A
get_elem? [] i = none
get_elem? (x ∷ xs) zero = some x
get_elem? (x ∷ xs) (suc i) = get_elem? xs i

-- The percentiles in the report: there are none without a latency, and an index out of range panics.
pub data Percentiles : Type 0 where
  no_latency panicked : Percentiles
  percentiles : ℕ → ℕ → ℕ → Percentiles

abbrev pub report_of : Option ℕ → Option ℕ → Option ℕ → Percentiles
report_of (some p50) (some p90) (some p99) = percentiles p50 p90 p99
report_of _ _ _ = panicked

-- `latencies[int(float64(len(latencies))*0.90)]`, for lengths of which the product has its whole part
-- right, after `sort.Float64s`.
abbrev pub at_percent : ℕ → List ℕ → Option ℕ
at_percent percent sorted = get_elem? sorted (length sorted * percent / 100)

unfoldable pub latency_report : (List ℕ → List ℕ) → List ℕ → Percentiles
latency_report sort [] = no_latency
latency_report sort (first ∷ rest) =
    let sorted = sort (first ∷ rest) in
    report_of (at_percent 50 sorted) (at_percent 90 sorted) (at_percent 99 sorted)

abbrev pub AreOrdered : List ℕ → Type 0
AreOrdered [] = Unit
AreOrdered (x ∷ xs) = All (λ y. x ≤ y) xs × AreOrdered xs

get_elem?-some : (xs : List ℕ) (i : ℕ) → i < length xs → (x : ℕ) × (get_elem? xs i ≡ some x)
get_elem?-some [] i below = absurd (omega (arith, below))
get_elem?-some (x ∷ xs) zero below = (x, refl)
get_elem?-some (x ∷ xs) (suc i) below = get_elem?-some xs i (omega (arith, below))

All-get_elem? : (P : ℕ → Type 0) (xs : List ℕ) (i x : ℕ) → All P xs → get_elem? xs i ≡ some x → P x
All-get_elem? P [] i x all at = absurd (ground (arith, at))
All-get_elem? P (y ∷ xs) zero x (p, all) at = subst P (ground (arith, at)) p
All-get_elem? P (y ∷ xs) (suc i) x (p, all) at = All-get_elem? P xs i x all at

get_elem?-ordered :
    (xs : List ℕ) (i j a b : ℕ)
    → AreOrdered xs
    → i ≤ j
    → get_elem? xs i ≡ some a
    → get_elem? xs j ≡ some b
    → a ≤ b
get_elem?-ordered [] i j a b o le at at' = absurd (ground (arith, at))
get_elem?-ordered (x ∷ xs) zero zero a b o le at at' = ground (arith, at, at')
get_elem?-ordered (x ∷ xs) zero (suc j) a b (all, o) le at at' =
    let y : x ≤ b = All-get_elem? (λ y. x ≤ y) xs j b all at' in ground (arith, at, y)
get_elem?-ordered (x ∷ xs) (suc i) zero a b o le at at' = absurd (omega (arith, le))
get_elem?-ordered (x ∷ xs) (suc i) (suc j) a b (all, o) le at at' =
    get_elem?-ordered xs i j a b o (omega (arith, le)) at at'

launched-ticks : (moments : List Moment) → launched moments ≡ 20 * ticks moments
unfolding launched
launched-ticks [] = refl
launched-ticks (timed_out ∷ _) = refl
launched-ticks (ticked ∷ rest) = omega (arith, launched-ticks rest)

latency_report-percentiles :
    (sort : List ℕ → List ℕ) (latencies : List ℕ)
    → length (sort latencies) ≡ length latencies
    → AreOrdered (sort latencies)
    → 0 < length latencies
    → (p50 p90 p99 : ℕ) × (latency_report sort latencies ≡ percentiles p50 p90 p99)
      × (p50 ≤ p90)
      × (p90 ≤ p99)
unfolding latency_report
latency_report-percentiles sort [] same ordered some_left = absurd (omega (arith, some_left))
latency_report-percentiles sort (first ∷ rest) same ordered some_left =
    let sorted = sort (first ∷ rest) in
    let n = length sorted in
    let left : 0 < n = omega (arith, same) in
    let (p50, at50) = get_elem?-some sorted (n * 50 / 100) (omega (arith, left)) in
    let (p90, at90) = get_elem?-some sorted (n * 90 / 100) (omega (arith, left)) in
    let (p99, at99) = get_elem?-some sorted (n * 99 / 100) (omega (arith, left)) in
    (
      p50,
      p90,
      p99,
      ground (arith, at50, at90, at99),
      get_elem?-ordered sorted (n * 50 / 100) (n * 90 / 100) p50 p90 ordered (omega arith) at50
          at90,
      get_elem?-ordered sorted (n * 90 / 100) (n * 99 / 100) p90 p99 ordered (omega arith) at90
          at99,
    )

-- The requests that the loop has fired until its timer end in any order, with any answers. Then successes
-- and errors together are twenty for each tick. Where there is a success, and the sorting of the latencies
-- leaves them in order and none out, the report has three percentiles, the median is at most the 90th, and
-- the 90th at most the 99th.
pub latency_report-ordered :
    (sort : List ℕ → List ℕ) (moments : List Moment) (answers : List Answer) (t : Tally)
    → length answers ≡ launched moments
    → finish_all answers no_request ≡ t
    → length (sort t.latencies) ≡ length t.latencies
    → AreOrdered (sort t.latencies)
    → 0 < t.success_count
    → (t.success_count + t.error_count ≡ 20 * ticks moments)
      × (p50 : ℕ) × (p90 : ℕ) × (p99 : ℕ) × (latency_report sort t.latencies
          ≡ percentiles p50 p90 p99)
      × (p50 ≤ p90)
      × (p90 ≤ p99)
latency_report-ordered sort moments answers t all through kept ordered some_success =
    let (created, counted, measured) = finish_all-counted answers in
    let latencies : length t.latencies ≡ t.success_count = ground (arith, through, measured) in
    let sum : t.success_count + t.error_count ≡ length answers = ground (arith, through, counted) in
    let (p50, p90, p99, reports, median, tail) =
      latency_report-percentiles sort t.latencies kept ordered
        (omega (arith, latencies, some_success)) in
    (omega (arith, sum, all, launched-ticks moments), p50, p90, p99, reports, median, tail)
