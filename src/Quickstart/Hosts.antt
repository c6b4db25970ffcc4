-- ===== src/Quickstart/Hosts.antt =====
-- parseSSHHosts and getSSHHostsWithValidSSHKeys of services/quickstart/quickstart.service.ts, on
-- what the package ssh-config reads in the file.
pub mod Laws
pub mod Readable
use zli.Prelude.{
  String, ℕ, Bool, true, false, ◌&&◌, not, Option, none, some, List, [], ◌∷◌, ◌++◌, if◌then◌else◌,
  filter, find, string_key, ◌==◌,
}
use Prim.Native.String.{len, slice}
use text.Mathlib.Text.{starts_with}
use zli.Dict.Defs.{Dict, get, set}
use zli.Effect.{Settled, resolved, rejected}

-- A line of a host block; a comment has no parameter.
pub record SshHostConfig : Type 0 where
  pub param : Option String
  pub value : String

pub record SshConfigHostBlock : Type 0 where
  pub param : Option String
  pub value : String
  pub config : List SshHostConfig

-- The port 22, or the number that `parseInt` reads in a text.
pub data Port : Type 0 where
  standard_port : Port
  parsed_port : String → Port

pub record ValidSshHost : Type 0 where
  pub name : String
  pub host_ip : String
  pub port : Port
  pub username : String
  pub identity_file : String

pub data SshConfigParseError : Type 0 where
  missing_host_name missing_user missing_identity_file : SshConfigParseError

-- `incompleteValidSSHHost`: a valid host whose fields are possibly undefined.
pub record IncompleteSshHost : Type 0 where
  pub name : String
  pub host_ip : Option String
  pub port : Port
  pub username : Option String
  pub identity_file : Option String

pub record InvalidSshHost : Type 0 where
  pub incomplete_valid_ssh_host : IncompleteSshHost
  pub parse_errors : List SshConfigParseError

pub data HostMessage : Type 0 where
  already_seen failed_to_parse : (host_name : String) → HostMessage

abbrev pub port_of : Option String → Port
port_of none = standard_port
port_of (some text) = parsed_port text

-- `parseErrors.push({ error })` where the value is undefined
abbrev pub missing : SshConfigParseError → Option String → List SshConfigParseError
missing error none = error ∷ []
missing error (some value) = []

pub data ParsedHost : Type 0 where
  valid_host : ValidSshHost → ParsedHost
  invalid_host : InvalidSshHost → ParsedHost

-- The host of a block once its parameters are read. It is valid when no error was pushed, that is
-- when none of the three is undefined.
unfoldable pub check_host :
    String → Option String → Port → Option String → Option String → ParsedHost
check_host name (some ip) port (some user) (some file) =
    valid_host
      (record { name = name; host_ip = ip; port = port; username = user; identity_file = file })
check_host name host_ip port user file = invalid_host (record {
  incomplete_valid_ssh_host = record {
    name = name;
    host_ip = host_ip;
    port = port;
    username = user;
    identity_file = file;
  };
  parse_errors =
      missing missing_host_name host_ip
      ++ missing missing_user user
      ++ missing missing_identity_file file;
})

-- The variables of the loop of `parseSSHHosts`, and what it tells the user or logs.
pub record HostParse : Type 0 where
  pub seen : Dict String Bool
  pub valid_hosts : Dict String ValidSshHost
  pub invalid_ssh_hosts : List InvalidSshHost
  pub messages : List HostMessage

unfoldable pub no_hosts : HostParse
no_hosts = record { seen = []; valid_hosts = []; invalid_ssh_hosts = []; messages = [] }

abbrev pub with_host : String → ParsedHost → HostParse → HostParse
with_host name (valid_host host) p = record p {
  seen = set name true p.seen;
  valid_hosts = set name host p.valid_hosts;
}
with_host name (invalid_host host) p = record p {
  seen = set name true p.seen;
  invalid_ssh_hosts = p.invalid_ssh_hosts ++ host ∷ [];
  messages = p.messages ++ failed_to_parse name ∷ [];
}

-- `seen.has(name)`
abbrev pub is_present {ℓ} : {A : Type ℓ} → Option A → Bool
is_present none = false
is_present (some a) = true

-- `to_lower_case` is the method of a string, and `join_home` joins the directory of the user and a
-- path, `path.join(os.homedir(), _)`.
module _ (to_lower_case : String → String) where
  -- `elem.param && elem.param.toLowerCase() === name`
  unfoldable pub is_param : String → Option String → Bool
  is_param name none = false
  is_param name (some param) = not (param == "") && (to_lower_case param == name)

  abbrev pub value_of : Option SshHostConfig → Option String
  value_of none = none
  value_of (some line) = some line.value

  unfoldable pub get_ssh_host_config_value : String → List SshHostConfig → Option String
  get_ssh_host_config_value parameter config =
      value_of (find (λ (l : SshHostConfig). is_param (to_lower_case parameter) l.param) config)

module _ (join_home : String → String) where
  unfoldable pub resolve_home : String → String
  resolve_home path = if starts_with path "~" then join_home (slice path 1 (len path)) else path

  abbrev pub resolved_home : Option String → Option String
  resolved_home none = none
  resolved_home (some path) = some (resolve_home path)

module _ (to_lower_case join_home : String → String) where
  unfoldable pub parse_host : SshConfigHostBlock → ParsedHost
  parse_host block =
      check_host block.value (get_ssh_host_config_value to_lower_case "HostName" block.config)
        (port_of (get_ssh_host_config_value to_lower_case "Port" block.config))
        (get_ssh_host_config_value to_lower_case "User" block.config)
        (resolved_home join_home
          (get_ssh_host_config_value to_lower_case "IdentityFile" block.config))

  -- One round of the loop.
  unfoldable pub add_block : SshConfigHostBlock → HostParse → HostParse
  add_block block p =
      if block.value == "*"
      then p
      else if is_present (get block.value p.seen)
      then record p { messages = p.messages ++ already_seen block.value ∷ [] }
      else with_host block.value (parse_host block) p

  unfoldable pub add_blocks : List SshConfigHostBlock → HostParse → HostParse
  add_blocks [] p = p
  add_blocks (block ∷ rest) p = add_blocks rest (add_block block p)

  -- `parseSSHHosts`, on what the package reads.
  unfoldable pub parse_ssh_hosts : List SshConfigHostBlock → HostParse
  parse_ssh_hosts config =
      add_blocks (filter (λ (b : SshConfigHostBlock). is_param to_lower_case "host" b.param) config)
        no_hosts

-- The loop of `getSSHHostsWithValidSSHKeys`, with the hosts that it has kept. `read_file` says how
-- reading a file settles.
module _ (read_file : String → Settled String) where
  abbrev pub keep_readable :
      String → ValidSshHost → Settled String → Dict String ValidSshHost → Dict String ValidSshHost
  keep_readable name host (resolved text) valid = set name host valid
  keep_readable name host (rejected failure) valid = valid

  unfoldable pub readable_hosts :
      Dict String ValidSshHost → Dict String ValidSshHost → Dict String ValidSshHost
  readable_hosts [] valid = valid
  readable_hosts ((name, host) ∷ rest) valid =
      readable_hosts rest (keep_readable name host (read_file host.identity_file) valid)

  unfoldable pub get_ssh_hosts_with_valid_ssh_keys :
      Dict String ValidSshHost → Dict String ValidSshHost
  get_ssh_hosts_with_valid_ssh_keys hosts = readable_hosts hosts []
