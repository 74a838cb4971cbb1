-- ===== src/Conf/Yml.antt =====
-- kesconf/config.go: the types that a configuration file is decoded into, without the sections of
-- the key stores. A pointer that may be nil is an Option, and a duration is its nanoseconds.
use kes.Prelude.{Bool, List, ℤ, Text}
use kes.Prelude.Maps.{Assoc}
use kes.Conf.Sections.{Env, KeyStoreSections}

pub record YmlProxy : Type 0 where
  pub identities : List (Env Text)
  pub header_client_cert : Env Text

pub record YmlTls : Type 0 where
  pub private_key : Env Text
  pub certificate : Env Text
  pub ca_path : Env Text
  pub password : Env Text
  pub client_auth : Env Text
  pub proxy : YmlProxy

pub record YmlPolicy : Type 0 where
  pub allow : List Text
  pub deny : List Text
  pub identities : List (Env Text)

pub record YmlExpiry : Type 0 where
  pub any : Env ℤ
  pub unused : Env ℤ
  pub offline : Env ℤ

pub record YmlPath : Type 0 where
  pub insecure_skip_auth : Env Bool
  pub timeout : Env ℤ

pub record YmlLog : Type 0 where
  pub error : Env Text
  pub audit : Env Text

-- type ymlFile, whose structs with a single field are that field.
pub record YmlFile : Type 0 where
  pub version : Text
  pub addr : Env Text
  pub admin_identity : Env Text
  pub tls : YmlTls
  pub policies : Assoc Text YmlPolicy
  pub cache_expiry : YmlExpiry
  pub api_paths : Assoc Text YmlPath
  pub log : YmlLog
  pub keys : List (Env Text)
  pub key_store : KeyStoreSections
