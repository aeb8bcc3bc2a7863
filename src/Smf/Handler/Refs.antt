-- ===== src/Smf/Handler/Refs.antt =====
-- The references of contexts are unique.
use pdu_session_sim.Common.{
  ℕ, ◌+◌, ◌%◌, ◌^◌, ◌<◌, ◌≡◌, ◌≢◌, List, [], ◌∷◌, ◌++◌, Text, text, length, arith,
}
use pdu_session_sim.Decimal.{decimal}
use pdu_session_sim.Decimal.Laws.{decimal-injective, AreDigits, decimal-AreDigits}
use pdu_session_sim.Models.{CreateSmContextRequest}
use pdu_session_sim.Smf.Handler.{Smf, context_ref, accept_context}

-- Two texts of digits that end at a dash are equal if the texts that go on behind them are.
split_at_dash :
    (s t r u : Text)
    → AreDigits s
    → AreDigits t
    → s ++ (b'-' ∷ r) ≡ t ++ (b'-' ∷ u)
    → (s ≡ t) × (r ≡ u)
split_at_dash [] [] r u hs ht e = ground (arith, e)
split_at_dash [] (d ∷ t) r u hs ht e = ground arith
split_at_dash (c ∷ s) [] r u hs ht e = ground arith
split_at_dash (c ∷ s) (d ∷ t) r u hs ht e = ground (arith, split_at_dash s t r u hs.1 ht.1)

drop_said : (s t : Text) → text "smctx-" ++ s ≡ text "smctx-" ++ t → s ≡ t
drop_said s t e = ground arith

-- A reference determines the time and the counter that it was made of.
pub context_ref-injective :
    (nanos nanos' counter counter' : ℕ)
    → context_ref nanos counter ≡ context_ref nanos' counter'
    → (nanos ≡ nanos') × (counter ≡ counter')
unfolding context_ref
context_ref-injective nanos nanos' counter counter' e =
    let (same, same') =
      split_at_dash (decimal nanos) (decimal nanos') (decimal counter) (decimal counter')
        (decimal-AreDigits nanos) (decimal-AreDigits nanos') (drop_said _ _ e) in
    (decimal-injective nanos nanos' same, decimal-injective counter counter' same')

-- The reference of the next context.
abbrev pub next_ref : {R : Type 0} → ℕ → Smf R → Text
next_ref nanos s = context_ref nanos ((s.sm_context_counter + 1) % 2 ^ 64)

-- The SMF after some requests, each with its time.
pub contexts : {R : Type 0} → List (ℕ × CreateSmContextRequest) → Smf R → Smf R
contexts [] s = s
contexts ((nanos, req) ∷ rest) s = contexts rest (accept_context nanos req s).0

sm_context_counter-contexts :
    {R : Type 0} (reqs : List (ℕ × CreateSmContextRequest)) (s : Smf R)
    → s.sm_context_counter < 2 ^ 64
    → (contexts reqs s).sm_context_counter ≡ (s.sm_context_counter + length reqs) % 2 ^ 64
unfolding contexts accept_context
sm_context_counter-contexts [] s h = omega arith
sm_context_counter-contexts ((nanos, req) ∷ rest) s h =
    omega (arith, sm_context_counter-contexts rest (accept_context nanos req s).0 (omega arith))

-- With a 64-bit counter, the reference of the next context and that of the one after some requests,
-- fewer than 2^64, are different, whatever the clock does.
pub next_ref-distinct :
    {R : Type 0} (reqs : List (ℕ × CreateSmContextRequest)) (s : Smf R) (nanos nanos' : ℕ)
    → s.sm_context_counter < 2 ^ 64
    → 0 < length reqs
    → length reqs < 2 ^ 64
    → next_ref nanos s ≢ next_ref nanos' (contexts reqs s)
next_ref-distinct reqs s nanos nanos' h some_reqs few e =
    omega
      (arith, (context_ref-injective nanos nanos' _ _ e).1, sm_context_counter-contexts reqs s h)
