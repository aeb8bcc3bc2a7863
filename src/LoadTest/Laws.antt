-- ===== src/LoadTest/Laws.antt =====
-- What the load test counts, and when it stops to wait.
use pdu_session_sim.Common.{
  ℕ, suc, ◌+◌, ◌≡◌, inl, inr, ◌↔◌, refl, ap, sym, ◌∙◌, List, [], ◌∷◌, ◌++◌, true, false, Bool-cases,
  length, length-append, All, arith, nat_eq, ◌==◌, if◌then◌else◌,
}
use pdu_session_sim.LoadTest.{
  Tally, no_request, Answer, no_answer, answered, finish_request, finish_all, Stats, Poll,
  unreachable, bad_status, unparsable, stats, is_through, reported, wait,
}

-- The answers that report a session, by their status.
abbrev pub created : List Answer → ℕ
created [] = 0
created (no_answer e ∷ rest) = created rest
created (answered status latency ∷ rest) =
    let later = created rest in if status == 201 then suc later else later

finish_all-grows :
    (answers : List Answer) (t : Tally)
    → (let t' = finish_all answers t in
        (t'.success_count ≡ t.success_count + created answers)
        × (t'.success_count + t'.error_count ≡ t.success_count + t.error_count + length answers)
        × (length t'.latencies ≡ length t.latencies + created answers))
unfolding finish_all
finish_all-grows [] t = ground arith
finish_all-grows (no_answer e ∷ rest) t =
    ground (arith, finish_all-grows rest (finish_request (no_answer e) t))
finish_all-grows (answered status latency ∷ rest) t = elim (Bool-cases (status == 201)) [
  | inl made ↦ ground (
    arith,
    made,
    finish_all-grows rest (finish_request (answered status latency) t),
    length-append t.latencies (latency ∷ []),
  )
  | inr other ↦
      ground (arith, other, finish_all-grows rest (finish_request (answered status latency) t))
]

-- However many requests end, in whatever order and with whatever answers: the successes are the answers
-- with status 201, successes and errors together are all the requests, and there is one latency for each
-- success.
pub finish_all-counted :
    (answers : List Answer)
    → (let t = finish_all answers no_request in
        (t.success_count ≡ created answers)
        × (t.success_count + t.error_count ≡ length answers)
        × (length t.latencies ≡ t.success_count))
finish_all-counted answers = ground (arith, finish_all-grows answers no_request)

-- Rounds that let the wait go on.
abbrev pub IsWaiting : ℕ → Poll → Type 0
IsWaiting success_count poll = (s : Stats) × (poll ≡ stats s) × (is_through success_count s ≡ false)

wait-reported :
    (n : ℕ) (polls : List Poll) (s : Stats)
    → wait n polls ≡ reported s
    → (before : List Poll) × (after : List Poll) × (polls ≡ before ++ (stats s ∷ after))
      × All (IsWaiting n) before
      × (is_through n s ≡ true)
unfolding wait
wait-reported n [] s e = absurd (ground (arith, e))
wait-reported n (unreachable x ∷ rest) s e = absurd (ground (arith, e))
wait-reported n (bad_status x ∷ rest) s e = absurd (ground (arith, e))
wait-reported n (unparsable x ∷ rest) s e = absurd (ground (arith, e))
wait-reported n (stats first ∷ rest) s e = elim (Bool-cases (is_through n first)) [
  | inl through ↦
      let same : first ≡ s = ground (arith, e, through) in
      ([], rest, ap (λ found. stats found ∷ rest) same, tt, ap (is_through n) (sym same) ∙ through)
  | inr waits ↦
      let later : wait n rest ≡ reported s = ground (arith, e, waits) in
      let (before, after, cut, waiting, through) = wait-reported n rest s later in
      (
        stats first ∷ before,
        after,
        ap (◌∷◌ (stats first)) cut,
        ((first, refl, waits), waiting),
        through,
      )
]

wait-through :
    (n : ℕ) (before after : List Poll) (s : Stats)
    → All (IsWaiting n) before
    → is_through n s ≡ true
    → wait n (before ++ (stats s ∷ after)) ≡ reported s
unfolding wait
wait-through n [] after s waiting through = ground (arith, through)
wait-through n (poll ∷ before) after s ((found, is, waits), waiting) through =
    ground (arith, is, waits, wait-through n before after s waiting through)

-- The wait ends with a report exactly after rounds that let it go on and one whose statistics are
-- through.
pub wait-reported_iff :
    (success_count : ℕ) (polls : List Poll) (s : Stats)
    → (wait success_count polls ≡ reported s) ↔ (
        (before : List Poll) × (after : List Poll) × (polls ≡ before ++ (stats s ∷ after))
        × All (IsWaiting success_count) before
        × (is_through success_count s ≡ true))
unfolding wait
wait-reported_iff n polls s = (
  wait-reported n polls s,
  λ (before, after, cut, waiting, through).
      ap (wait n) cut ∙ wait-through n before after s waiting through,
)
