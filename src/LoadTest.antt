-- ===== src/LoadTest.antt =====
-- The load test (run_load.go): the requests it fires and counts, and its wait until the SMF is through.
-- What the AMF and the SMF answer is a parameter; a latency is in milliseconds as it is measured, and the
-- counts, of some millions at most, do not wrap.
pub mod Laws
pub mod Ingress
mod Tests
use pdu_session_sim.Common.{
  ℕ, suc, ◌+◌, ◌/◌, List, [], ◌∷◌, ◌++◌, Bool, true, false, ◌||◌, ◌&&◌, Option, none, some, Text,
  text, Map, Result, ok, err, ◌==◌, nat_eq, leb, ltb, if◌then◌else◌,
}

abbrev pub target_tps : ℕ
target_tps = 2000

-- A tick comes every 10 milliseconds.
abbrev pub batch_size : ℕ
batch_size = target_tps / 100

-- `successCount`, `errorCount` and `latencies`.
pub record Tally : Type 0 where
  pub success_count : ℕ
  pub error_count : ℕ
  pub latencies : List ℕ

abbrev pub no_request : Tally
no_request = record { success_count = 0; error_count = 0; latencies = [] }

-- What comes of a request: `Do` fails, or there is a status after some time.
pub data Answer : Type 0 where
  no_answer : Text → Answer
  answered : ℕ → ℕ → Answer

-- The end of one goroutine.
abbrev pub finish_request : Answer → Tally → Tally
finish_request (no_answer e) t = record t { error_count = t.error_count + 1 }
finish_request (answered status latency) t =
    if status == 201
    then record t { success_count = t.success_count + 1; latencies = t.latencies ++ (latency ∷ []) }
    else record t { error_count = t.error_count + 1 }

-- The goroutines in the order in which they end.
unfoldable pub finish_all : List Answer → Tally → Tally
finish_all [] t = t
finish_all (a ∷ rest) t = finish_all rest (finish_request a t)

-- The statistics of the SMF.
pub record Stats : Type 0 where
  pub active : ℕ
  pub pending : ℕ
  pub failed : ℕ
  pub failure_breakdown : Map Text ℕ

-- One round of the wait: `Get` fails, the status is not 200, the body does not parse, or it does.
pub data Poll : Type 0 where
  unreachable : Text → Poll
  bad_status : ℕ → Poll
  unparsable : Text → Poll
  stats : Stats → Poll

abbrev pub total_done : Stats → ℕ
total_done s = s.active + s.failed

abbrev pub is_through : ℕ → Stats → Bool
is_through success_count s =
    leb success_count (total_done s) || (s.pending == 0 && ltb 0 (total_done s))

pub data Waited : Type 0 where
  gave_up : Poll → Waited
  reported : Stats → Waited
  still_waiting : Waited

-- The rounds so far.
unfoldable pub wait : ℕ → List Poll → Waited
wait success_count [] = still_waiting
wait success_count (stats s ∷ rest) =
    let later = wait success_count rest in if is_through success_count s then reported s else later
wait success_count (poll ∷ rest) = gave_up poll
