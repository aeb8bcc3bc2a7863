-- ===== src/Simulator.antt =====
-- The simulation runner (cmd/simulator/main.go): it starts the four network functions, checks that they
-- are healthy, triggers one session, and stops them. What the operating system and the network answer is
-- a parameter; the result is what the runner did, in order.
pub mod Laws
mod Tests
use pdu_session_sim.Common.{
  ℕ, List, [], ◌∷◌, ◌++◌, map, Bool, true, false, Option, none, some, Text, text, Result, ok, err,
  ◌==◌, nat_eq, if◌then◌else◌,
}

pub data Function : Type 0 where
  udm upf smf amf : Function

-- `Start` of a command, the status of a health check, `Getpgid` of a process, and the AMF's status for the
-- trigger.
pub record Surroundings : Type 0 where
  pub start_error : Function → Option Text
  pub health : Function → Result ℕ
  pub has_group : Function → Bool
  pub trigger : Result ℕ

pub data Event : Type 0 where
  started : Function → Event
  start_failed : Function → Text → Event
  checked : Function → Bool → Event
  aborted : Event
  triggered : ℕ → Bool → Event
  trigger_failed : Text → Event
  killed_group : Function → Event
  killed_process : Function → Event
  reaped : Function → Event

abbrev pub health_url : Function → Text
health_url udm = text "http://localhost:8082/health"
health_url upf = text "http://localhost:8083/health"
health_url smf = text "http://localhost:8081/health"
health_url amf = text "http://localhost:8080/health"

module _ (env : Surroundings) where
  abbrev pub check_health : Function → Bool
  check_health f = elim (env.health f) [ err _ ↦ false | ok status ↦ status == 200 ]

  -- The checks, until one fails, and whether none did.
  unfoldable pub check_all : List Function → List Event × Bool
  check_all [] = ([], true)
  check_all (f ∷ rest) =
      let (events, healthy) = check_all rest in
      if check_health f then (checked f true ∷ events, healthy) else (checked f false ∷ [], false)

  -- `killCmd` of a command that was started: its group, or the process itself, and the wait for it.
  abbrev pub kill_cmd : Function → List Event
  kill_cmd f =
      if env.has_group f then killed_group f ∷ reaped f ∷ [] else killed_process f ∷ reaped f ∷ []

  -- The deferred calls, newest first.
  unfoldable pub kill_all : List Function → List Event
  kill_all [] = []
  kill_all (f ∷ rest) = kill_cmd f ++ kill_all rest

  abbrev pub send_trigger : List Event
  send_trigger = elim env.trigger [
    | err e ↦ trigger_failed e ∷ []
    | ok status ↦ triggered status (status == 201) ∷ []
  ]

  abbrev pub conclude : Bool → List Event
  conclude true = send_trigger
  conclude false = aborted ∷ []

  -- From the health checks on.
  unfoldable pub simulate : List Event
  unfolding check_all
  simulate =
      let (events, healthy) = check_all (udm ∷ upf ∷ smf ∷ amf ∷ []) in events ++ conclude healthy

  -- The starts; each defers its stop, and the first that fails returns.
  unfoldable pub start_all : List Function → List Function → List Event
  unfolding kill_all simulate
  start_all [] deferred = simulate ++ kill_all deferred
  start_all (f ∷ rest) deferred =
      let later = start_all rest (f ∷ deferred) in
      elim (env.start_error f) [
        | some e ↦ start_failed f e ∷ kill_all deferred
        | none ↦ started f ∷ later
      ]

  unfoldable pub simulator_main : List Event
  unfolding start_all
  simulator_main = start_all (udm ∷ upf ∷ smf ∷ amf ∷ []) []
