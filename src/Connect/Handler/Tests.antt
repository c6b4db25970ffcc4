-- ===== src/Connect/Handler/Tests.antt =====
-- A database daemon whose server does not start, and its connection.
use zli.Prelude.{string_key, false, none, some, []}
use zli.Effect.{returned, resolved, rejected, type_error}
use zli.Connect.Starting.{ConnectArgs, DaemonSystem, DbTarget, sql_server}
use zli.Connect.Handler.{ConnectSystem, UniversalConnection, db}

abbrev args : ConnectArgs
args = record { custom_port = some 5432; debug = false }

abbrev system : DaemonSystem
system = record {
  find_port = resolved 6000;
  port_in_use = λ port. resolved false;
  base_env = resolved 7000;
  executable = resolved tt;
  spawned = resolved 42;
  exits_early = none;
  debug_pid = 8;
  server_started = λ host port. rejected type_error;
  shut_down = resolved tt;
}

abbrev db_target : DbTarget
db_target = record { name = "orders"; local_host = none; local_port = none }

abbrev connection : UniversalConnection
connection = record {
  target_type = db;
  connection_id = some "c1";
  is_windows_agent = false;
  verb_type = sql_server;
  target_id = "t1";
}

abbrev connecting : ConnectSystem
connecting = record {
  parsed_user = none;
  configured_user = none;
  target_groups = [];
  default_target_groups = none;
  create = λ request. resolved connection;
  close = resolved tt;
  args = args;
  system = system;
  db_target = resolved db_target;
  bz_target = resolved "win";
  ports = [];
  daemons = [];
  shell_connect_handler = ([], returned 0);
  web_connect_handler = ([], returned 0);
  start_kube_daemon_handler = ([], returned 0);
}
