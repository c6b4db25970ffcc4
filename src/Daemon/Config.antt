-- ===== src/Daemon/Config.antt =====
-- The daemon configurations, `DaemonConfig` of services/config/config.service.types.ts. A field
-- that the source initialises with `null` is an `Option`.
use zli.Prelude.{ℕ, String, Option, none, List}

pub data DaemonConfigType : Type 0 where
  db rdp sqlserver kube web : DaemonConfigType

-- The fields that every daemon configuration has, less its `type`.
pub record BaseDaemonConfig : Type 0 where
  pub local_host : Option String
  pub local_port : Option ℕ
  pub local_pid : Option ℕ
  pub control_port : Option ℕ

pub record KubeDetails : Type 0 where
  pub target_user : Option String
  pub target_groups : Option (List String)
  pub target_cluster : Option String
  pub default_namespace : Option String

pub data DaemonConfig : Type 0 where
  web_config db_config rdp_config sqlserver_config :
      BaseDaemonConfig → (name : Option String) → DaemonConfig
  kube_config : BaseDaemonConfig → KubeDetails → DaemonConfig

unfoldable pub base : DaemonConfig → BaseDaemonConfig
base (web_config b n) = b
base (db_config b n) = b
base (rdp_config b n) = b
base (sqlserver_config b n) = b
base (kube_config b k) = b

unfoldable pub config_type : DaemonConfig → DaemonConfigType
config_type (web_config b n) = web
config_type (db_config b n) = db
config_type (rdp_config b n) = rdp
config_type (sqlserver_config b n) = sqlserver
config_type (kube_config b k) = kube

abbrev default_base : BaseDaemonConfig
default_base = record {
  local_host = none;
  local_port = none;
  local_pid = none;
  control_port = none;
}

unfoldable pub get_default_kube_config : DaemonConfig
get_default_kube_config = kube_config default_base (record {
  target_user = none;
  target_groups = none;
  target_cluster = none;
  default_namespace = none;
})

unfoldable pub get_default_db_config : DaemonConfig
get_default_db_config = db_config default_base none

unfoldable pub get_default_rdp_config : DaemonConfig
get_default_rdp_config = rdp_config default_base none

unfoldable pub get_default_sqlserver_config : DaemonConfig
get_default_sqlserver_config = sqlserver_config default_base none

unfoldable pub get_default_web_config : DaemonConfig
get_default_web_config = web_config default_base none
