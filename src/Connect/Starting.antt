-- ===== src/Connect/Starting.antt =====
-- dbConnectHandler and tcpAppConnectHandler of handlers/connect: starting a daemon in the background
-- and storing it.
pub mod Laws
use zli.Prelude.{
  ℕ, nat_key, String, string_key, option_key, ◌==◌, Bool, true, false, Option, none, some, List, [],
  ◌∷◌, if◌then◌else◌,
}
use zli.Dict.Defs.{Dict, get, set}
use zli.Effect.{
  Failure, error, Outcome, Run, pure, throw, or_else, emit, clean_exit, Settled, resolved, rejected,
  ◌>>=◌, ◌>>◌,
}
use zli.Daemon.Config.{BaseDaemonConfig, DaemonConfig, db_config, rdp_config, sqlserver_config}
use zli.Daemon.Store.{DaemonConfigs, add_daemon}

-- The ports that were used for the TCP applications of a target, `TcpAppPortsConfig`.
pub record TcpAppPorts : Type 0 where
  pub rdp_port : Option ℕ
  pub sql_server_port : Option ℕ

pub data StartEvent : Type 0 where
  ports_stored : Dict String TcpAppPorts → StartEvent
  daemon_spawned : (local_pid : ℕ) → StartEvent
  daemon_exited : (local_pid : ℕ) → StartEvent
  shut_down_tried : (control_port local_pid : ℕ) → StartEvent
  daemons_stored : DaemonConfigs → StartEvent
  started_in_debug_mode protocol_not_supported failed_to_start : StartEvent

abbrev pub Connecting : Type 0 → Type 0
Connecting A = Run StartEvent A

abbrev pub await : {A : Type 0} → Settled A → Connecting A
await (resolved a) = pure a
await (rejected failure) = throw failure

-- The arguments of the command that are read: `custom_port` is nothing for -1.
pub record ConnectArgs : Type 0 where
  pub custom_port : Option ℕ
  pub debug : Bool

-- How the calls of the system settle: a free port, whether a port is in use, the control port of the
-- environment for the daemon, the copy of the executable (or nothing to copy with a custom path), the
-- process id of the daemon, its server, and the request that it shuts down. `exits_early` has the code
-- for a daemon that exits while its server is waited for, `debug_pid` the process of debug mode.
pub record DaemonSystem : Type 0 where
  pub find_port : Settled ℕ
  pub port_in_use : ℕ → Settled Bool
  pub base_env : Settled ℕ
  pub executable : Settled (Unit {0})
  pub spawned : Settled ℕ
  pub exits_early : Option ℕ
  pub debug_pid : ℕ
  pub server_started : (local_host : String) → ℕ → Settled (Unit {0})
  pub shut_down : Settled (Unit {0})

unfoldable pub get_or_default_localhost : Option String → String
get_or_default_localhost none = "localhost"
get_or_default_localhost (some host) = host

unfoldable pub get_or_default_localport : Settled ℕ → Option ℕ → Settled ℕ
get_or_default_localport find_port none = find_port
get_or_default_localport find_port (some port) = resolved port

abbrev pub unless_in_use : Bool → Connecting (Unit {0})
unless_in_use true = throw (error "It looks like an application is using the port.")
unless_in_use false = pure tt

unfoldable pub check_if_port_available : (ℕ → Settled Bool) → ℕ → Connecting (Unit {0})
check_if_port_available port_in_use port = do
  in_use ← await (port_in_use port)
  unless_in_use in_use

-- `if (argv.customPort != -1) localPort = argv.customPort`
abbrev pub custom_or : Option ℕ → ℕ → ℕ
custom_or none port = port
custom_or (some custom) port = custom

-- `addDaemon`, on the stored daemons.
abbrev pub stored : Settled (Unit {0}) × DaemonConfigs → Connecting (Unit {0})
stored (resolved done, daemons) = emit (daemons_stored daemons)
stored (rejected failure, daemons) = throw failure

module _ (s : DaemonSystem) where
  -- What is stored of a daemon: `make` adds its kind and its name.
  abbrev pub daemon_base : String → ℕ → ℕ → ℕ → BaseDaemonConfig
  daemon_base local_host local_port control_port pid = record {
    local_host = some local_host;
    local_port = some local_port;
    local_pid = some pid;
    control_port = some control_port;
  }

  -- Waiting for the server; a daemon whose server does not start is shut down.
  unfoldable pub wait_for_server : String → ℕ → ℕ → ℕ → Connecting (Unit {0})
  wait_for_server local_host local_port control_port pid =
      or_else (await (s.server_started local_host local_port))
        (λ failure. do emit (shut_down_tried control_port pid); await s.shut_down; throw failure)

  -- `reportDaemonExitErrors`: when the daemon exits, the process is left with the code for it.
  abbrev pub unless_exited : ℕ → Option ℕ → Connecting (Unit {0})
  unless_exited pid none = pure tt
  unless_exited pid (some code) = do emit (daemon_exited pid); clean_exit code

  -- The `try` block without debug mode.
  unfoldable pub start_in_background :
      (BaseDaemonConfig → DaemonConfig)
      → Option String
      → String
      → ℕ
      → ℕ
      → DaemonConfigs
      → Connecting ℕ
  start_in_background make connection_id local_host local_port control_port daemons = do
    pid ← await s.spawned
    emit (daemon_spawned pid)
    unless_exited pid s.exits_early
    wait_for_server local_host local_port control_port pid
    stored (
        add_daemon connection_id (make (daemon_base local_host local_port control_port pid))
          daemons)
    pure 0

  -- `startDaemonInDebugMode`: the process ends with the daemon.
  abbrev pub start_in_debug_mode : Connecting ℕ
  start_in_debug_mode = do
    emit (daemon_spawned s.debug_pid)
    emit (daemon_exited s.debug_pid)
    clean_exit 0

  abbrev pub start :
      Bool
      → (BaseDaemonConfig → DaemonConfig)
      → Option String
      → String
      → ℕ
      → ℕ
      → DaemonConfigs
      → Connecting ℕ
  start true make connection_id local_host local_port control_port daemons = do
    emit started_in_debug_mode
    start_in_debug_mode
  start false make connection_id local_host local_port control_port daemons =
      start_in_background make connection_id local_host local_port control_port daemons

  -- From the check of the port to the end, which the two handlers share: their `catch` block logs the
  -- error and returns 1.
  unfoldable pub start_daemon :
      ConnectArgs
      → (BaseDaemonConfig → DaemonConfig)
      → Option String
      → String
      → ℕ
      → DaemonConfigs
      → Connecting ℕ
  start_daemon args make connection_id local_host local_port daemons = do
    check_if_port_available s.port_in_use local_port
    control_port ← await s.base_env
    await s.executable
    or_else (start args.debug make connection_id local_host local_port control_port daemons)
        (λ failure. do emit failed_to_start; pure 1)

pub record DbTarget : Type 0 where
  pub name : String
  pub local_host : Option String
  pub local_port : Option ℕ

unfoldable pub db_connect_handler :
    DaemonSystem → ConnectArgs → Settled DbTarget → Option String → DaemonConfigs → Connecting ℕ
db_connect_handler s args db_target connection_id daemons = do
  target ← await db_target
  default_port ← await (get_or_default_localport s.find_port target.local_port)
  start_daemon s args (λ b. db_config b (some target.name)) connection_id
      (get_or_default_localhost target.local_host) (custom_or args.custom_port default_port) daemons

pub data VerbType : Type 0 where
  rdp sql_server : VerbType
  other_verb : String → VerbType

-- `config && config.port`, where the port 0 counts as none.
abbrev pub set_port : Option ℕ → Option ℕ
set_port none = none
set_port (some port) = if port == 0 then none else some port

abbrev pub port_used : VerbType → Option TcpAppPorts → Option ℕ
port_used rdp (some ports) = set_port ports.rdp_port
port_used sql_server (some ports) = set_port ports.sql_server_port
port_used verb _ = none

abbrev pub ports_of : Option TcpAppPorts → TcpAppPorts
ports_of none = record { rdp_port = none; sql_server_port = none }
ports_of (some ports) = ports

-- `{...ports, ...{ rdpPort: localPort }}`
abbrev pub with_port : VerbType → ℕ → TcpAppPorts → TcpAppPorts
with_port rdp port ports = record ports { rdp_port = some port }
with_port sql_server port ports = record ports { sql_server_port = some port }
with_port (other_verb verb) port ports = ports

-- `if (localPort != defaultPort)`: the port is stored for the next time.
unfoldable pub remember_port :
    VerbType → String → Dict String TcpAppPorts → Option ℕ → ℕ → Connecting (Unit {0})
remember_port verb target_id config (some default_port) local_port =
    if local_port == default_port
    then pure tt
    else emit (
        ports_stored
          (set target_id (with_port verb local_port (ports_of (get target_id config))) config))
remember_port verb target_id config none local_port = emit (
    ports_stored
      (set target_id (with_port verb local_port (ports_of (get target_id config))) config))

abbrev pub tcp_config : VerbType → String → BaseDaemonConfig → DaemonConfig
tcp_config rdp name b = rdp_config b (some name)
tcp_config sql_server name b = sqlserver_config b (some name)
tcp_config (other_verb verb) name b = rdp_config b (some name)

-- `bz_target` is the name of the target, when it is found.
unfoldable pub tcp_app_connect_supported :
    DaemonSystem
    → ConnectArgs
    → VerbType
    → String
    → Settled String
    → Dict String TcpAppPorts
    → Option String
    → DaemonConfigs
    → Connecting ℕ
tcp_app_connect_supported s args verb target_id bz_target config connection_id daemons = do
  target_name ← await bz_target
  let default_port = port_used verb (get target_id config)
  local_port ← await (get_or_default_localport s.find_port default_port)
  remember_port verb target_id config default_port local_port
  start_daemon s args (tcp_config verb target_name) connection_id (get_or_default_localhost none)
      (custom_or args.custom_port local_port) daemons

unfoldable pub tcp_app_connect_handler :
    DaemonSystem
    → ConnectArgs
    → VerbType
    → String
    → Settled String
    → Dict String TcpAppPorts
    → Option String
    → DaemonConfigs
    → Connecting ℕ
tcp_app_connect_handler s args (other_verb verb) target_id bz_target config connection_id daemons =
    do emit protocol_not_supported; clean_exit 1
tcp_app_connect_handler s args verb target_id bz_target config connection_id daemons =
    tcp_app_connect_supported s args verb target_id bz_target config connection_id daemons
