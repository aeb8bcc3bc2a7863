-- ===== src/Boot/Tests.antt =====
-- An SMF without a file or a variable, whose sockets all open.
use pdu_session_sim.Common.{
  ℕ, ◌≡◌, refl, [], ◌∷◌, none, some, text_beq, text_eq, ◌==◌, if◌then◌else◌, arith, Text, Result,
  ok, err, text,
}
use pdu_session_sim.Boot.Life.{
  upf_program, smf_program, life, live, exited, shutdown_http, stop_orchestrator, stop_upf_server,
  close_pfcp_client, sync_logger,
}
use pdu_session_sim.Boot.{Sockets, RunningSmf, serving, smf_main, new_pfcp_client}
use pdu_session_sim.Boot.Laws.{smf, smf_main-environment}
use pdu_session_sim.Config.{Config, Environment, not_found, load, override_from_env}
use pdu_session_sim.Config.Atoi.{atoi}
use pdu_session_sim.Decimal.{decimal}
use pdu_session_sim.Database.Driver.{Driver, kept_in_memory, init_store}
use pdu_session_sim.Smf.Db.{new_in_memory_repository}
use pdu_session_sim.Smf.PfcpClient.{new_client}

abbrev no_yaml : Text → Config → Result Config
no_yaml yaml cfg = ok cfg

abbrev unset : Environment
unset variable = []

abbrev no_database : Driver Text ℕ
no_database = record {
  parse_config = λ conn_str. ok conn_str;
  set_conns = λ most least config. config;
  new_with_config = λ config. err (text "refused");
  ping = λ pool. none;
}

abbrev all_open : Sockets Text Text
all_open = record { resolve = λ addr. ok addr; listen = λ addr. ok addr }

abbrev default_smf : RunningSmf Text Text ℕ
default_smf = record {
  store = record { result = kept_in_memory new_in_memory_repository; closed = [] };
  upf_addr = text "localhost:8805";
  socket = text ":0";
  pfcp = new_client;
  queue_size = 5000;
  workers = 20;
  listen_addr = text ":8081";
  web_dir = text "web";
}

default_serves : smf no_yaml unset not_found no_database all_open ≡ serving default_smf
unfolding smf_main load override_from_env atoi init_store new_pfcp_client text_beq
default_serves = refl

abbrev sized : Environment
sized name =
    if name == text "QUEUE_SIZE"
    then decimal 250
    else if name == text "MAX_WORKERS"
    then decimal 4
    else if name == text "DATABASE_URL"
    then text "memory"
    else []

abbrev sized_smf : RunningSmf Text Text ℕ
sized_smf = record default_smf { queue_size = 250; workers = 4 }

sized_queue : sized (text "QUEUE_SIZE") ≡ decimal 250
unfolding text_beq
sized_queue = refl

sized_workers : sized (text "MAX_WORKERS") ≡ decimal 4
unfolding text_beq
sized_workers = refl

sized_database : sized (text "DATABASE_URL") ≡ text "memory"
unfolding text_beq
sized_database = refl

sized_serves : smf no_yaml sized not_found no_database all_open ≡ serving sized_smf
unfolding smf_main load override_from_env atoi decimal init_store new_pfcp_client text_beq
sized_serves = refl

smf_main-environment_example :
    (sized_smf.queue_size ≡ 250)
    × (sized_smf.workers ≡ 4)
    × (sized_smf.store.result ≡ kept_in_memory new_in_memory_repository)
    × (sized_smf.store.closed ≡ [])
smf_main-environment_example =
    smf_main-environment no_yaml sized not_found no_database all_open sized_smf 250 4 (omega arith)
      (omega arith) sized_queue sized_workers sized_database sized_serves

-- A UPF whose port for HTTP is taken, and whose shutdown takes too long.
upf_goes_on :
    life upf_program (serving default_smf) (record {
      server_error = some (text "address already in use");
      signal = some (some (text "deadline exceeded"));
    })
    ≡ exited 0
        (shutdown_http ∷ stop_upf_server ∷ sync_logger ∷ [])
        (text "UPF HTTP Server failed" ∷ text "UPF HTTP server shutdown failed" ∷ [])
unfolding life live
upf_goes_on = refl

-- An SMF that a signal stops: the workers drain while the PFCP client is still open.
smf_stops :
    life smf_program (serving default_smf) (record { server_error = none; signal = some none })
    ≡ exited 0 (shutdown_http ∷ stop_orchestrator ∷ close_pfcp_client ∷ sync_logger ∷ []) []
unfolding life live
smf_stops = refl

smf_port_taken :
    life smf_program
      (serving default_smf)
      (record { server_error = some (text "address already in use"); signal = some none })
    ≡ exited 1 [] (text "SMF Server failed to start" ∷ [])
unfolding life live
smf_port_taken = refl
