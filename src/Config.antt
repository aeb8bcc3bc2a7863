-- ===== src/Config.antt =====
-- The configuration (pkg/config/config.go): defaults, the YAML file, and the environment over both.
-- The YAML library stands outside: `unmarshal` changes the configuration by the file's text, or fails.
pub mod Atoi
pub mod Laws
mod Tests
unfoldable pub use Atoi.{atoi}
use pdu_session_sim.Common.{
  ℕ, List, [], ◌++◌, Bool, ℤ, pos, Option, Text, text, text_eq, text_beq, Result, ok, err, ◌==◌,
  if◌then◌else◌,
}

pub record AmfConfig : Type 0 where
  pub listen_addr : Text
  pub smf_base_url : Text

pub record SmfConfig : Type 0 where
  pub listen_addr : Text
  pub database_url : Text
  pub upf_addr : Text
  pub max_workers : ℤ
  pub queue_size : ℤ
  pub web_dir : Text

pub record UdmConfig : Type 0 where
  pub listen_addr : Text
  pub database_url : Text

pub record UpfConfig : Type 0 where
  pub pfcp_addr : Text
  pub http_addr : Text

pub record Config : Type 0 where
  pub amf : AmfConfig
  pub smf : SmfConfig
  pub udm : UdmConfig
  pub upf : UpfConfig

abbrev pub default_config : Config
default_config = record {
  amf = record { listen_addr = text ":8080"; smf_base_url = text "http://localhost:8081" };
  smf = record {
    listen_addr = text ":8081";
    database_url = text "memory";
    upf_addr = text "localhost:8805";
    max_workers = pos 20;
    queue_size = pos 5000;
    web_dir = text "web";
  };
  udm = record { listen_addr = text ":8082"; database_url = text "memory" };
  upf = record { pfcp_addr = text ":8805"; http_addr = text ":8083" };
}

-- `os.Getenv`: an unset variable is empty.
abbrev pub Environment : Type 0
Environment = Text → Text

abbrev pub override : Text → Text → Text
override v current = if v == [] then current else v

-- A variable that is no number leaves the value as it was.
abbrev pub override_int : Text → ℤ → ℤ
override_int v current = if v == [] then current else (elim (atoi v) [ err _ ↦ current | ok n ↦ n ])

unfoldable pub override_from_env : Environment → Config → Config
unfolding text_beq atoi
override_from_env env cfg = record {
  amf = record {
    listen_addr = override (env (text "AMF_LISTEN_ADDR")) cfg.amf.listen_addr;
    smf_base_url = override (env (text "SMF_BASE_URL")) cfg.amf.smf_base_url;
  };
  smf = record {
    listen_addr = override (env (text "SMF_LISTEN_ADDR")) cfg.smf.listen_addr;
    database_url = override (env (text "DATABASE_URL")) cfg.smf.database_url;
    upf_addr = override (env (text "UPF_ADDR")) cfg.smf.upf_addr;
    max_workers = override_int (env (text "MAX_WORKERS")) cfg.smf.max_workers;
    queue_size = override_int (env (text "QUEUE_SIZE")) cfg.smf.queue_size;
    web_dir = override (env (text "WEB_DIR")) cfg.smf.web_dir;
  };
  udm = record {
    listen_addr = override (env (text "UDM_LISTEN_ADDR")) cfg.udm.listen_addr;
    database_url = override (env (text "DATABASE_URL")) cfg.udm.database_url;
  };
  upf = record {
    pfcp_addr = override (env (text "UPF_PFCP_ADDR")) cfg.upf.pfcp_addr;
    http_addr = override (env (text "UPF_HTTP_ADDR")) cfg.upf.http_addr;
  };
}

-- What `os.ReadFile` yields.
pub data File : Type 0 where
  not_found : File
  unreadable : Text → File
  contents : Text → File

unfoldable pub load : (Text → Config → Result Config) → Environment → File → Result Config
unfolding override_from_env
load unmarshal env not_found = ok (override_from_env env default_config)
load unmarshal env (unreadable e) = err (text "failed to read config file: " ++ e)
load unmarshal env (contents yaml) = elim (unmarshal yaml default_config) [
  | err e ↦ err (text "failed to parse config file: " ++ e)
  | ok cfg ↦ ok (override_from_env env cfg)
]
