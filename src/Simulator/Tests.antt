-- ===== src/Simulator/Tests.antt =====
-- A simulation in which the SMF does not start.
use pdu_session_sim.Common.{◌≡◌, refl, true, ◌++◌, List, [], ◌∷◌, none, some, text, ok}
use pdu_session_sim.Simulator.{
  udm, upf, smf, Surroundings, Event, started, start_failed, killed_group, reaped, kill_all,
  simulator_main,
}
use pdu_session_sim.Simulator.Laws.{starts, stops, simulator_main-stops}

abbrev no_smf : Surroundings
no_smf = record {
  start_error = λ f. elim f [ smf ↦ some (text "no such file") | _ ↦ none ];
  health = λ f. ok 200;
  has_group = λ f. true;
  trigger = ok 201;
}

no_smf_cleans :
    simulator_main no_smf
    ≡ started udm
      ∷ started upf
      ∷ start_failed smf (text "no such file")
      ∷ killed_group upf
      ∷ reaped upf
      ∷ killed_group udm
      ∷ reaped udm
      ∷ []
unfolding simulator_main kill_all
no_smf_cleans = refl

simulator_main-stops_example :
    (work : List Event) × (simulator_main no_smf ≡ work ++ kill_all no_smf (starts work []))
    × (stops work ≡ [])
    × (stops (simulator_main no_smf) ≡ starts work [])
simulator_main-stops_example = simulator_main-stops no_smf
