-- ===== src/Smf/Orchestrator/Worker/Addresses.antt =====
-- The addresses that the SMF hands out.
use pdu_session_sim.Common.{
  ℕ, zero, suc, ◌+◌, ◌%◌, ◌^◌, ◌<◌, ◌≡◌, ◌≢◌, refl, sym, ap, ◌∙◌, some, arith,
}
use pdu_session_sim.Ip.{parse_ip4}
use pdu_session_sim.Ip.Laws.{parse_ip4-print_ipv4}
use pdu_session_sim.Pfcp.Bytes.{put_uint32}
use pdu_session_sim.Smf.Orchestrator.Worker.{Orchestrator, allocate_ip}

-- The counter's next value.
abbrev pub next_value : {R : Type 0} → Orchestrator R → ℕ
next_value o = (o.ip_counter + 1) % 2 ^ 32

-- An allocated address is a valid IPv4 address, with the counter's new value in network order.
pub parse_ip4-allocate_ip :
    {R : Type 0} (o : Orchestrator R)
    → (parse_ip4 (allocate_ip o).1 ≡ some (put_uint32 (next_value o)))
      × ((allocate_ip o).0.ip_counter ≡ next_value o)
unfolding allocate_ip put_uint32
parse_ip4-allocate_ip o =
    (parse_ip4-print_ipv4 _ _ _ _ (omega arith) (omega arith) (omega arith) (omega arith), refl)

-- The state after a number of allocations.
pub allocations : {R : Type 0} → ℕ → Orchestrator R → Orchestrator R
allocations zero o = o
allocations (suc n) o = (allocate_ip (allocations n o)).0

ip_counter-allocations :
    {R : Type 0} (n : ℕ) (o : Orchestrator R)
    → o.ip_counter < 2 ^ 32
    → (allocations n o).ip_counter ≡ (o.ip_counter + n) % 2 ^ 32
unfolding allocations allocate_ip
ip_counter-allocations zero o h = omega arith
ip_counter-allocations (suc n) o h = omega (arith, ip_counter-allocations n o h)

some_injective :
    {a b : ℕ} → some (put_uint32 a) ≡ some (put_uint32 b) → a < 2 ^ 32 → b < 2 ^ 32 → a ≡ b
unfolding put_uint32
some_injective e ha hb = ground arith

-- With a 32-bit counter, an allocation and one up to 2^32 - 1 allocations later give different
-- addresses.
pub allocate_ip-distinct :
    {R : Type 0} (o : Orchestrator R) (k : ℕ)
    → o.ip_counter < 2 ^ 32
    → 0 < k
    → k < 2 ^ 32
    → (allocate_ip o).1 ≢ (allocate_ip (allocations k o)).1
allocate_ip-distinct o k h pos_k small e =
    let first = (parse_ip4-allocate_ip o).0 in
    let later = (parse_ip4-allocate_ip (allocations k o)).0 in
    let same : next_value o ≡ next_value (allocations k o) =
      some_injective (sym first ∙ ap parse_ip4 e ∙ later) (omega arith) (omega arith) in
    omega (arith, ip_counter-allocations k o h)
