-- ===== src/Boot.antt =====
-- How the network functions start (cmd/smf/main.go, cmd/amf/main.go, cmd/udm/main.go, cmd/upf/main.go,
-- `NewPFCPClient` of internal/smf/pfcp_client.go, `NewServer` and `Start` of internal/upf/server.go). The
-- configuration's file, the driver of the database and the sockets are parameters.
pub mod Laws
pub mod Life
mod Tests
use pdu_session_sim.Common.{ℕ, ℤ, pos, negsuc, List, [], ◌∷◌, ◌++◌, Text, text, Result, ok, err}
use pdu_session_sim.Amf
use pdu_session_sim.Amf.{new_handler}
use pdu_session_sim.Config.{Config, Environment, File, load}
use pdu_session_sim.Database.Driver.{Driver, Store, Opened, init_store, smf_conns, udm_conns}
use pdu_session_sim.Smf.Db.{InMemoryRepository, new_in_memory_repository}
use pdu_session_sim.Smf.PfcpClient.{PfcpClient, new_client}
use pdu_session_sim.Udm.{InMemorySubscriberRepository, new_in_memory_subscriber_repository}
use pdu_session_sim.Upf
use pdu_session_sim.Upf.{new_server}

-- `net.ResolveUDPAddr` and `net.ListenUDP`.
pub record Sockets (A S : Type 0) : Type 0 where
  pub resolve : Text → Result A
  pub listen : A → Result S

-- How a program ends before it serves: `os.Exit(1)` or `Fatal`, with a message, or a panic.
pub data Failure : Type 0 where
  exit_1 : Text → Failure
  fatal : Text → Failure
  panicked : Failure

pub data Boot (P : Type 0) : Type 0 where
  failed : Failure → Boot P
  serving : P → Boot P

-- A running SMF: its store, its bound client with the UPF's address, the capacity of its queue, the number
-- of its workers, and what it serves.
pub record RunningSmf (A S P : Type 0) : Type 0 where
  pub store : Opened (Store InMemoryRepository P) P
  pub upf_addr : A
  pub socket : S
  pub pfcp : PfcpClient
  pub queue_size : ℕ
  pub workers : ℕ
  pub listen_addr : Text
  pub web_dir : Text

-- `for i := 0; i < maxWorkers; i++`.
abbrev pub rounds : ℤ → ℕ
rounds (pos n) = n
rounds (negsuc n) = 0

module _ {A S C P : Type 0} (unmarshal : Text → Config → Result Config) (env : Environment)
    (file : File) (driver : Driver C P) (sockets : Sockets A S) where
  -- `NewPFCPClient`: the UPF's address and a socket on any port.
  unfoldable pub new_pfcp_client : Text → Result (A × S)
  new_pfcp_client upf_addr = elim (sockets.resolve upf_addr) [
    | err e ↦ err e
    | ok addr ↦ elim (sockets.resolve (text ":0")) [
      | err e ↦ err e
      | ok local ↦ elim (sockets.listen local) [ err e ↦ err e | ok socket ↦ ok (addr, socket) ]
    ]
  ]

  -- `InitRepository` of the SMF and `InitSubscriberRepository` of the UDM.
  abbrev pub init_repository : Text → Opened (Store InMemoryRepository P) P
  init_repository = init_store driver new_in_memory_repository (smf_conns driver)

  abbrev pub init_subscriber_repository : Text → Opened (Store InMemorySubscriberRepository P) P
  init_subscriber_repository =
      init_store driver new_in_memory_subscriber_repository (udm_conns driver)

  -- From `InitOrchestrator` on; `make(chan Job, queueSize)` panics below 0. That it also panics at a size
  -- beyond all memory is left out.
  abbrev pub start_smf :
      Config → Opened (Store InMemoryRepository P) P → A × S → Boot (RunningSmf A S P)
  start_smf cfg store (addr, socket) = elim cfg.smf.queue_size [
    | negsuc _ ↦ failed panicked
    | pos queue_size ↦ serving (record {
      store = store;
      upf_addr = addr;
      socket = socket;
      pfcp = new_client;
      queue_size = queue_size;
      workers = rounds cfg.smf.max_workers;
      listen_addr = cfg.smf.listen_addr;
      web_dir = cfg.smf.web_dir;
    })
  ]

  unfoldable pub smf_main : Boot (RunningSmf A S P)
  unfolding load init_store new_pfcp_client
  smf_main = elim (load unmarshal env file) [
    | err e ↦ failed (exit_1 (text "Failed to load config: " ++ e))
    | ok cfg ↦
        let store = init_repository cfg.smf.database_url in
        elim (new_pfcp_client cfg.smf.upf_addr) [
          | err e ↦ failed (fatal e)
          | ok bound ↦ start_smf cfg store bound
        ]
  ]

  pub record RunningUdm : Type 0 where
    pub store : Opened (Store InMemorySubscriberRepository P) P
    pub listen_addr : Text

  unfoldable pub udm_main : Boot RunningUdm
  unfolding load init_store
  udm_main = elim (load unmarshal env file) [
    | err e ↦ failed (exit_1 (text "Failed to load config: " ++ e))
    | ok cfg ↦ serving (record {
      store = init_subscriber_repository cfg.udm.database_url;
      listen_addr = cfg.udm.listen_addr;
    })
  ]

  pub record RunningAmf : Type 0 where
    pub handler : Amf.Handler
    pub listen_addr : Text

  unfoldable pub amf_main : Boot RunningAmf
  unfolding load
  amf_main = elim (load unmarshal env file) [
    | err e ↦ failed (exit_1 (text "Failed to load config: " ++ e))
    | ok cfg ↦
        serving
          (record { handler = new_handler cfg.amf.smf_base_url; listen_addr = cfg.amf.listen_addr })
  ]

  pub record RunningUpf : Type 0 where
    pub udp_addr : A
    pub socket : S
    pub server : Upf.Server
    pub http_addr : Text

  -- `Start`, which binds the address that `NewServer` has resolved.
  abbrev pub start_upf : Config → A → Boot RunningUpf
  start_upf cfg addr = elim (sockets.listen addr) [
    | err e ↦ failed (fatal e)
    | ok socket ↦ serving (record {
      udp_addr = addr;
      socket = socket;
      server = new_server;
      http_addr = cfg.upf.http_addr;
    })
  ]

  unfoldable pub upf_main : Boot RunningUpf
  unfolding load
  upf_main = elim (load unmarshal env file) [
    | err e ↦ failed (exit_1 (text "Failed to load config: " ++ e))
    | ok cfg ↦ elim (sockets.resolve cfg.upf.pfcp_addr) [
      | err e ↦ failed (fatal e)
      | ok addr ↦ start_upf cfg addr
    ]
  ]
