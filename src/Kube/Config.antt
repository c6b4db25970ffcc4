-- ===== src/Kube/Config.antt =====
-- A kube config, as far as the client reads it, `generateKubeConfig`, and the names of the entries
-- that the client manages. `KubeConfig` is a class of @kubernetes/client-node: a record here has the
-- fields that the client reads and writes.
use zli.Prelude.{
  String, string_key, ◌==◌, Bool, true, ◌||◌, Option, some, List, [], ◌∷◌, if◌then◌else◌,
}
use Prim.Native.String

pub record Cluster : Type 0 where
  pub name : String
  pub server : String
  pub skip_tls_verify : Bool

pub record Context : Type 0 where
  pub name : String
  pub cluster : String
  pub user : String
  pub namespace : Option String

pub record User : Type 0 where
  pub name : String
  pub token : String

pub record KubeConfig : Type 0 where
  pub clusters : List Cluster
  pub users : List User
  pub contexts : List Context
  pub current_context : Option String

-- The configuration service: its name, and the email of the user that is logged in.
pub record ConfigService : Type 0 where
  pub config_name : String
  pub email : String

unfoldable pub get_kube_config_name_prefix : ConfigService → String
get_kube_config_name_prefix s =
    if (s.config_name == "dev") || (s.config_name == "stage")
    then String.◌++◌ s.config_name "-bzero-"
    else "bzero-"

unfoldable pub get_kube_config_username : ConfigService → String
get_kube_config_username s = String.◌++◌ (get_kube_config_name_prefix s) s.email

-- `${prefix}${targetUser}@${targetName}`
unfoldable pub identifying_name : ConfigService → String → String → String
identifying_name s target_name target_user =
    String.◌++◌ (get_kube_config_name_prefix s)
      (String.◌++◌ target_user (String.◌++◌ "@" target_name))

-- `daemon_port` is the port as the template prints it.
unfoldable pub generate_kube_config :
    ConfigService
    → (target_name target_user daemon_port daemon_token : String)
    → (default_namespace : Option String) → KubeConfig
generate_kube_config s target_name target_user daemon_port daemon_token default_namespace = record {
  clusters =
      record {
        name = identifying_name s target_name target_user;
        server = String.◌++◌ "https://localhost:" daemon_port;
        skip_tls_verify = true;
      }
      ∷ [];
  users = record { name = get_kube_config_username s; token = daemon_token } ∷ [];
  contexts =
      record {
        name = identifying_name s target_name target_user;
        cluster = identifying_name s target_name target_user;
        user = get_kube_config_username s;
        namespace = default_namespace;
      }
      ∷ [];
  current_context = some (identifying_name s target_name target_user);
}

unfoldable pub is_kube_context_bastion_zero : ConfigService → Context → Bool
is_kube_context_bastion_zero s context = context.user == get_kube_config_username s
