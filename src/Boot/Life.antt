-- ===== src/Boot/Life.antt =====
-- From the start of a network function to its end (`main` of cmd/smf/main.go, cmd/amf/main.go,
-- cmd/udm/main.go and cmd/upf/main.go): its server's goroutine, the signal, the shutdown and the deferred calls.
use pdu_session_sim.Common.{
  ℕ, List, [], ◌∷◌, ◌++◌, Bool, true, false, Option, none, some, Text, text, if◌then◌else◌,
}
use pdu_session_sim.Boot.{Boot, failed, serving, exit_1, fatal, panicked}

-- What the deferred calls and the shutdown stop.
pub data Stop : Type 0 where
  shutdown_http stop_orchestrator stop_upf_server close_pfcp_client sync_logger : Stop

-- What a program meets once it serves: `ListenAndServe` returns an error other than `ErrServerClosed`,
-- which it can do once, or it does not; then a signal comes, and `Shutdown` returns an error, or none
-- within its five seconds, or no signal comes.
pub record Events : Type 0 where
  pub server_error : Option Text
  pub signal : Option (Option Text)

-- A program still serves, with what it has logged as errors; or it has exited, with a code and with what
-- it has stopped, in this order.
pub data End : Type 0 where
  still_serving : List Text → End
  exited : ℕ → List Stop → List Text → End

-- How the programs differ: whether a failed server is `Fatal`, what is logged, and what is deferred, the
-- last one first; `deferred_first` is deferred before the orchestrator starts.
pub record Program : Type 0 where
  pub fatal_server : Bool
  pub server_message : Text
  pub shutdown_message : Text
  pub deferred : List Stop
  pub deferred_first : List Stop

abbrev pub smf_program : Program
smf_program = record {
  fatal_server = true;
  server_message = text "SMF Server failed to start";
  shutdown_message = text "SMF server shutdown failed";
  deferred = stop_orchestrator ∷ close_pfcp_client ∷ sync_logger ∷ [];
  deferred_first = close_pfcp_client ∷ sync_logger ∷ [];
}

abbrev pub amf_program : Program
amf_program = record {
  fatal_server = true;
  server_message = text "AMF Server failed to start";
  shutdown_message = text "AMF server shutdown failed";
  deferred = sync_logger ∷ [];
  deferred_first = sync_logger ∷ [];
}

abbrev pub udm_program : Program
udm_program = record {
  fatal_server = true;
  server_message = text "UDM Server failed to start";
  shutdown_message = text "UDM server shutdown failed";
  deferred = sync_logger ∷ [];
  deferred_first = sync_logger ∷ [];
}

abbrev pub upf_program : Program
upf_program = record {
  fatal_server = false;
  server_message = text "UPF HTTP Server failed";
  shutdown_message = text "UPF HTTP server shutdown failed";
  deferred = stop_upf_server ∷ sync_logger ∷ [];
  deferred_first = sync_logger ∷ [];
}

abbrev pub log_shutdown : Program → Option Text → List Text
log_shutdown p none = []
log_shutdown p (some e) = p.shutdown_message ∷ []

-- The goroutine of the server; `Fatal` exits with 1 and runs nothing that is deferred.
abbrev pub log_server : Program → Option Text → List Text
log_server p none = []
log_server p (some e) = p.server_message ∷ []

-- `main` from `<-stop` on.
abbrev pub await_signal : Program → Option (Option Text) → List Text → End
await_signal p none logged = still_serving logged
await_signal p (some shutdown_error) logged =
    exited 0 (shutdown_http ∷ p.deferred) (logged ++ log_shutdown p shutdown_error)

unfoldable pub live : Program → Events → End
live p events = elim events.server_error [
  | none ↦ await_signal p events.signal []
  | some e ↦
      if p.fatal_server
      then exited 1 [] (log_server p (some e))
      else await_signal p events.signal (log_server p (some e))
]

-- The whole of `main`: `os.Exit` and `Fatal` skip the deferred calls, a panic, which exits with 2, runs
-- those that are deferred by then.
unfoldable pub life : {P : Type 0} → Program → Boot P → Events → End
unfolding live
life p (failed (exit_1 e)) events = exited 1 [] (e ∷ [])
life p (failed (fatal e)) events = exited 1 [] (e ∷ [])
life p (failed panicked) events = exited 2 p.deferred_first []
life p (serving _) events = live p events
