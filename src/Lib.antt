-- ===== src/Lib.antt =====
-- A simulator of the 5G core's PDU session establishment: four network functions that talk over HTTP,
-- and over PFCP on UDP between the SMF and the UPF.
--
-- The AMF is triggered and asks the SMF for a session context. The SMF answers at once and puts a job
-- into a bounded queue; a worker saves the session, has the UDM validate the subscription, sends the
-- session to the UPF, marks it active and tells the AMF, which then asks for an update. A job that
-- fails is marked FAILED with a reason, and the AMF is told of that.
--
-- Files, and the code that they model (paths from the repository's root):
--   Models        the structs of pkg/models/session.go
--   Pfcp          pkg/models/pfcp.go: EncodeRequest, DecodeRequest, EncodeResponse, DecodeResponse;
--                 Pfcp/Bytes the byte order of encoding/binary
--   Ip            net.ParseIP with To4, and net.IP.String, as pkg/models and internal/smf use them
--   Decimal       %d of fmt; Config/Atoi is strconv.Atoi
--   Config        pkg/config/config.go: defaults, file, environment
--   Upf           internal/upf/server.go: session table, handlePacket (establish, modify), listenLoop
--   Udm           internal/udm: the seeded store, GetSubscriptionData, PostgresSubscriberRepository
--   Amf           internal/amf/handler.go: TriggerEstablishment, ReceiveN1N2Callback,
--                 triggerUpdateSMContext
--   Database      what the stores use of pgx: statements, rows and tables, and the opening of a pool
--                 (Driver: NewPostgresRepository, InitRepository, and their likes of internal/udm/db.go)
--   Smf/Db        internal/smf/db.go: SessionRepository with its laws (Interface), the store in memory,
--                 PostgresRepository (Postgres)
--   Smf/PfcpClient    internal/smf/pfcp_client.go: a call as one function (transact), and calls
--                 interleaved step by step (Correlation)
--   Smf/Orchestrator  internal/smf/service.go: State (jobs, counters), Task (a worker's actions),
--                 Establishment (processEstablishment), Reason (contains, indexString and the switch of
--                 worker), Notify (the messages on failure), Worker (queue, addresses, worker, metrics)
--   Smf/Concurrent    the same worker in stages (Stages), and the SMF whose workers, requests and
--                 datagrams interleave (Service: a step relation and what it reaches; Drain, Stop
--                 and Kept: the workers alone, once Stop has closed the queue)
--   Smf/Handler   internal/smf/handler.go: CreateSMContext and the other handlers
--   Smf/Dashboard internal/smf/dashboard.go: the hub and its clients' channels; Stream is ServeHTTP
--   System        the SMF with the UDM, the UPF and the AMF of this repository answering it, each request
--                 routed by host, method and path, and any other request answered by a parameter; System/Core
--                 the interleaved SMF and the UPF, with datagrams that are lost, doubled and out of order
--   Boot          cmd/*/main.go: how each network function starts; Life is how it ends
--   Routes        cmd/*/main.go: the patterns of http.ServeMux, and paths as their segments, without
--                 percent-encoding
--   Simulator     cmd/simulator/main.go; LoadTest: run_load.go
--   Http, Common  what HTTP exchanges; maps, texts, results and lists for all
--
-- State is passed on explicitly. A worker's action is a function from a World (store, PFCP client, HTTP
-- requests sent) to a world and a result; Go's errors are results that carry their text, and a panic of
-- the dashboard is a missing result. Integers of fixed width wrap at 2^32 or 2^64 as in the code; the
-- counts of the store and the durations are natural numbers. What comes from outside is a parameter:
-- the HTTP network (Network), the datagrams that arrive during a PFCP call and the timer (Exchange), the
-- clock, the YAML library, the database with its driver (Pool, Driver; what is relied on is in IsTable),
-- the sockets, and the operating system of the simulator. A theorem on the orchestrator holds for each
-- store with the laws of Interface.
--
-- The loops over a socket or a channel read a list of events. The rounds of indexString are bounded by
-- the number of positions, those of decimal by the number printed; the workers' loop takes one element
-- of a list of surroundings for each job, and with as many elements as jobs it empties the queue.
--
-- A stage of a worker is what it does between two points where others can come in between: a method of
-- the store, an exchange over HTTP, the start of a PFCP call and its end. A job is through after at most
-- nine stages, which bounds what the workers do after a stop.
--
-- Not modelled: what is logged but for a failed server and shutdown (pkg/logger); JSON, for which a
-- body is the value it encodes; what is printed, and the load test's rates, which are floating point;
-- the update's delay in the AMF; a queue of size 0, where Go hands a job to a waiting worker; the three
-- atomic actions of CreateSMContext one by one, as its call is one step. The counters of a refused job
-- and of a finished one are modelled, the dashboard's broadcasts from the SMF only as far as the hub.
pub mod Common
pub mod Ip
pub mod Pfcp
pub mod Models
pub mod Http
pub mod Database
pub mod Boot
pub mod Simulator
pub mod LoadTest
pub mod Decimal
pub mod Upf
pub mod Smf
pub mod Udm
pub mod Amf
pub mod Config
pub mod System
pub mod Routes
