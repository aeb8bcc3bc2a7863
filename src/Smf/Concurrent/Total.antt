-- ===== src/Smf/Concurrent/Total.antt =====
-- A number of each worker, added up over the first ones (the workers of internal/smf/service.go).
use pdu_session_sim.Common.{
  ℕ, zero, suc, ◌+◌, ◌<◌, ◌≤◌, ◌≡◌, inl, inr, refl, arith, nat_beq, nat_beq_iff, Bool-cases,
}
use pdu_session_sim.Smf.Concurrent.Places.{set_other}
use pdu_session_sim.Smf.Concurrent.Service.{Worker, idle, set}

unfoldable pub total : (Worker → ℕ) → ℕ → (ℕ → Worker) → ℕ
total cost zero workers = 0
total cost (suc n) workers = total cost n workers + cost (workers n)

module _ (cost : Worker → ℕ) where
  total-set_of_le :
      (n i : ℕ) (workers : ℕ → Worker) (worker : Worker)
      → n ≤ i
      → total cost n (set workers i worker) ≡ total cost n workers
  unfolding total
  total-set_of_le zero i workers worker h = refl
  total-set_of_le (suc n) i workers worker h =
      ground (arith, total-set_of_le n i workers worker, set_other workers i n worker)

  pub total-set :
      (n i : ℕ) (workers : ℕ → Worker) (worker : Worker)
      → i < n
      → total cost n (set workers i worker) + cost (workers i) ≡ total cost n workers + cost worker
  unfolding total
  total-set zero i workers worker h = absurd (omega arith)
  total-set (suc n) i workers worker h = elim (Bool-cases (nat_beq i n)) [
    | inl same ↦ ground (arith, same, nat_beq_iff i n, total-set_of_le n i workers worker)
    | inr other ↦ ground (arith, other, nat_beq_iff i n, total-set n i workers worker)
  ]

  pub total-idle :
      (n : ℕ) (workers : ℕ → Worker)
      → cost idle ≡ 0
      → ((i : ℕ) → i < n → workers i ≡ idle)
      → total cost n workers ≡ 0
  unfolding total
  total-idle zero workers free all = refl
  total-idle (suc n) workers free all =
      ground (arith, free, all n, total-idle n workers free (λ i h. all i (omega (arith, h))))
