-- ===== src/Simulator/Laws.antt =====
-- The runner leaves no process behind.
use pdu_session_sim.Common.{
  ◌≡◌, refl, sym, ap, ◌∙◌, List, [], ◌∷◌, ◌++◌, Bool, true, false, Bool-cases, All, All-append_iff,
  Option-cases, Result-cases, inl, inr, arith, nat_eq,
}
use pdu_session_sim.Simulator.{
  Function, udm, upf, smf, amf, Surroundings, Event, started, start_failed, checked, aborted,
  triggered, trigger_failed, killed_group, killed_process, reaped, check_health, check_all,
  conclude, kill_all, simulate, start_all, simulator_main,
}

-- The functions that were started, newest first, on top of others.
abbrev pub starts : List Event → List Function → List Function
starts [] before = before
starts (started f ∷ events) before = starts events (f ∷ before)
starts (_ ∷ events) before = starts events before

-- The functions whose process was killed, in order.
abbrev pub stops : List Event → List Function
stops [] = []
stops (killed_group f ∷ events) = f ∷ stops events
stops (killed_process f ∷ events) = f ∷ stops events
stops (_ ∷ events) = stops events

-- Events that start and stop nothing.
abbrev IsQuiet : Event → Type 0
IsQuiet (started f) = ⊥
IsQuiet (killed_group f) = ⊥
IsQuiet (killed_process f) = ⊥
IsQuiet _ = Unit

quiet-starts :
    (events : List Event) (before : List Function)
    → All IsQuiet events
    → starts events before ≡ before
quiet-starts [] before q = refl
quiet-starts (started f ∷ events) before (q, _) = absurd q
quiet-starts (killed_group f ∷ events) before (q, _) = absurd q
quiet-starts (killed_process f ∷ events) before (q, _) = absurd q
quiet-starts (start_failed f e ∷ events) before (_, q) = quiet-starts events before q
quiet-starts (checked f fine ∷ events) before (_, q) = quiet-starts events before q
quiet-starts (aborted ∷ events) before (_, q) = quiet-starts events before q
quiet-starts (triggered n fine ∷ events) before (_, q) = quiet-starts events before q
quiet-starts (trigger_failed e ∷ events) before (_, q) = quiet-starts events before q
quiet-starts (reaped f ∷ events) before (_, q) = quiet-starts events before q

quiet-stops : (events : List Event) → All IsQuiet events → stops events ≡ []
quiet-stops [] q = refl
quiet-stops (started f ∷ events) (q, _) = absurd q
quiet-stops (killed_group f ∷ events) (q, _) = absurd q
quiet-stops (killed_process f ∷ events) (q, _) = absurd q
quiet-stops (start_failed f e ∷ events) (_, q) = quiet-stops events q
quiet-stops (checked f fine ∷ events) (_, q) = quiet-stops events q
quiet-stops (aborted ∷ events) (_, q) = quiet-stops events q
quiet-stops (triggered n fine ∷ events) (_, q) = quiet-stops events q
quiet-stops (trigger_failed e ∷ events) (_, q) = quiet-stops events q
quiet-stops (reaped f ∷ events) (_, q) = quiet-stops events q

module _ (env : Surroundings) where
  check_all-IsQuiet : (functions : List Function) → All IsQuiet (check_all env functions).0
  unfolding check_all
  check_all-IsQuiet [] = tt
  check_all-IsQuiet (f ∷ rest) = elim (Bool-cases (check_health env f)) [
    | inl healthy ↦ rw (healthy) (tt, check_all-IsQuiet rest)
    | inr sick ↦ rw (sick) (tt, tt)
  ]

  conclude-IsQuiet : (healthy : Bool) → All IsQuiet (conclude env healthy)
  conclude-IsQuiet false = (tt, tt)
  conclude-IsQuiet true = elim (Result-cases env.trigger) [
    | inl (e, failed) ↦ rw (failed) (tt, tt)
    | inr (status, answered) ↦ rw (answered) (tt, tt)
  ]

  simulate-IsQuiet : All IsQuiet (simulate env)
  unfolding simulate
  simulate-IsQuiet =
      let functions = udm ∷ upf ∷ smf ∷ amf ∷ [] in
      let (events, healthy) = check_all env functions in
      (All-append_iff IsQuiet events (conclude env healthy)).1
        (check_all-IsQuiet functions, conclude-IsQuiet healthy)

  kill_all-stops : (deferred : List Function) → stops (kill_all env deferred) ≡ deferred
  unfolding kill_all
  kill_all-stops [] = refl
  kill_all-stops (f ∷ rest) = ground (arith, kill_all-stops rest)

  -- From some point on: what is done, then the deferred stops.
  Cleans : List Event → List Function → Type 0
  Cleans events deferred =
      (work : List Event) × (events ≡ work ++ kill_all env (starts work deferred))
      × (stops work ≡ [])

  start_all-Cleans :
      (functions deferred : List Function) → Cleans (start_all env functions deferred) deferred
  unfolding Cleans start_all
  start_all-Cleans [] deferred = (
    simulate env,
    ap (λ stopped. simulate env ++ kill_all env stopped)
        (sym (quiet-starts (simulate env) deferred simulate-IsQuiet)),
    quiet-stops (simulate env) simulate-IsQuiet,
  )
  start_all-Cleans (f ∷ rest) deferred = elim (Option-cases (env.start_error f)) [
    | inl fine ↦
        let (work, all, none_stopped) = start_all-Cleans rest (f ∷ deferred) in
        (started f ∷ work, ground (arith, fine, all), none_stopped)
    | inr (e, wrong) ↦ (start_failed f e ∷ [], ground (arith, wrong), refl)
  ]

  append-stops :
      (work : List Event) (deferred : List Function)
      → stops work ≡ []
      → stops (work ++ kill_all env deferred) ≡ deferred
  append-stops [] deferred h = kill_all-stops deferred
  append-stops (started f ∷ work) deferred h = append-stops work deferred h
  append-stops (start_failed f e ∷ work) deferred h = append-stops work deferred h
  append-stops (checked f fine ∷ work) deferred h = append-stops work deferred h
  append-stops (aborted ∷ work) deferred h = append-stops work deferred h
  append-stops (triggered n fine ∷ work) deferred h = append-stops work deferred h
  append-stops (trigger_failed e ∷ work) deferred h = append-stops work deferred h
  append-stops (reaped f ∷ work) deferred h = append-stops work deferred h
  append-stops (killed_group f ∷ work) deferred h = absurd (ground (arith, h))
  append-stops (killed_process f ∷ work) deferred h = absurd (ground (arith, h))

  -- Whatever starts, is healthy or answers: a run of the simulation is some work in which nothing is
  -- stopped, and then the stops of the functions that it started, each once, the newest first.
  pub simulator_main-stops :
      (work : List Event) × (simulator_main env ≡ work ++ kill_all env (starts work []))
      × (stops work ≡ [])
      × (stops (simulator_main env) ≡ starts work [])
  unfolding simulator_main Cleans
  simulator_main-stops =
      let (work, all, none_stopped) = start_all-Cleans (udm ∷ upf ∷ smf ∷ amf ∷ []) [] in
      (work, all, none_stopped, ap stops all ∙ append-stops work (starts work []) none_stopped)
