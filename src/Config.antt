-- ===== src/Config.antt =====
-- pkg/config/config.go: the configuration as it is decoded. A pointer field is an Option, a
-- `map[string]interface{}` a list of fields, an int or int64 an integer.
pub mod Address
pub mod Check
pub mod Key
pub mod Middleware
pub mod Names
pub mod Load
pub mod References
pub mod Sections
mod Sorting
pub mod Tables
pub mod Tests
pub mod Usable
pub mod Validate
use gorp.Prelude.{ℕ, String, Bool, List, Option, ℤ}
use gorp.Value.{Fields}

pub record TlsConfig : Type 0 where
  pub cert_file : String
  pub key_file : String
  pub key_passphrase : String
  pub min_version : String
  pub ca_file : String
  pub crl_file : String
  pub ocsp_url : String

pub record MiddlewareConfig : Type 0 where
  pub name : String
  pub config : Fields

pub record AdminConfig : Type 0 where
  pub address : String
  pub enabled : Bool
  pub tls : TlsConfig
  pub middlewares : List MiddlewareConfig

pub record HealthCheckConfig : Type 0 where
  pub path : String
  pub interval : String
  pub timeout : String

pub record BackendProxy : Type 0 where
  pub url : String
  pub username : String
  pub password : String
  pub hosts : List String
  pub no_proxy : List String

pub record BackendAuth : Type 0 where
  pub type : String
  pub username : String
  pub password : String
  pub token : String
  pub header : String
  pub prefix : String
  pub access_key_id : String
  pub secret_access_key : String
  pub region : String
  pub service : String

pub record BackendTls : Type 0 where
  pub insecure : Bool
  pub ca_file : String
  pub server_name : String
  pub cert_file : String
  pub key_file : String
  pub key_passphrase : String

pub record Backend : Type 0 where
  pub name : String
  pub url : String
  pub timeout : String
  pub connect_timeout : String
  pub headers_timeout : String
  pub idle_timeout : String
  pub max_connections : ℤ
  pub retries : ℤ
  pub retry_backoff : String
  pub health_check : Option HealthCheckConfig
  pub compression : Bool
  pub force_tls : Bool
  pub tls : BackendTls
  pub auth : Option BackendAuth
  pub proxy : Option BackendProxy

pub record TcpRoute : Type 0 where
  pub name : String
  pub hosts : List String
  pub tls : Option TlsConfig
  pub backends : List Backend

pub record TcpByteCheck : Type 0 where
  pub any : Bool
  pub values : List ℕ

pub record Listener : Type 0 where
  pub name : String
  pub type : String
  pub address : String
  pub read_header_timeout : String
  pub write_timeout : String
  pub idle_timeout : String
  pub max_connections : ℤ
  pub max_request_body_size : ℤ
  pub tls : TlsConfig
  pub users : List (String × String)
  pub log : Bool
  pub proxy : Option BackendProxy
  pub backends : List Backend
  pub routes : List TcpRoute
  pub initial_bytes : List TcpByteCheck
  pub middlewares : List MiddlewareConfig

pub record Service : Type 0 where
  pub name : String
  pub backends : List Backend

pub record SelectorConfig : Type 0 where
  pub type : String
  pub config : Fields

pub record Route : Type 0 where
  pub name : String
  pub prefix : String
  pub strip_prefix : Bool
  pub preserve_host : Bool
  pub selector : SelectorConfig
  pub hosts : List String
  pub paths : List String
  pub endpoints : List String
  pub service : String
  pub backends : List Backend
  pub middlewares : List MiddlewareConfig

pub record Config : Type 0 where
  pub admin : AdminConfig
  pub listeners : List Listener
  pub services : List Service
  pub routes : List Route
  pub directory : String
