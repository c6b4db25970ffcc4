-- ===== src/Disconnect/Tests.antt =====
-- `handleDisconnect` for two daemons: the first is shut down, the second is already gone.
use zli.Prelude.{
  ℕ, String, string_key, nat_key, ◌==◌, Option, none, some, List, [], ◌∷◌, ◌++◌, ◌≡◌, refl,
  if◌then◌else◌,
}
use zli.Dict.Defs.{get, set, set_all, delete, HasDistinctKeys}
use zli.Effect.{resolved, exited}
use zli.Login.Config.{LoginConfig}
use zli.Disconnect.Commands.{Stores, disconnect_handler, logout_handler, without_pid}
use zli.Disconnect.Commands.Laws.{
  AreWellFormed, Leaves, disconnect_handler-Leaves, logout_handler_lem,
}
use zli.Daemon.Config.{DaemonConfig, db_config, db, base}
use zli.Daemon.Store.{
  DaemonConfigs, map_key, map_entries, get_daemon_configs, delete_daemon, store_key,
}
use zli.Daemon.Service.{
  ProcessManager, killed_gracefully, no_longer_exists, daemon_success_killed,
  disconnect_all_daemons, shut_down_all, shut_down_but_always_resolve, process_results,
  DisconnectResult,
}
use zli.Disconnect.{
  waiting_for_all, shut_down_gracefully, cannot_shut_down_no_longer_exists, no_daemons_running,
  identifier, process_disconnects, handle_disconnect_results, handle_disconnect,
}
use zli.Disconnect.Laws.{messages_of, warns_after_last_gone}

abbrev daemon_at : ℕ → DaemonConfig
daemon_at pid =
    db_config
      (record {
        local_host = some "localhost";
        local_port = some 5432;
        local_pid = some pid;
        control_port = some 9000;
      })
      (some "db")

abbrev two : DaemonConfigs
two = ("c1", daemon_at 1) ∷ ("c2", daemon_at 2) ∷ []

abbrev second_gone : ProcessManager
second_gone = record {
  is_process_running = λ pid. pid == 1;
  try_shut_down_process =
      λ port pid. resolved (if pid == 1 then killed_gracefully else no_longer_exists);
}

-- The first daemon was running and has been shut down, and the last message denies it.
wrong_warning :
    (handle_disconnect second_gone db two).0
    ≡ waiting_for_all db
      ∷ shut_down_gracefully (identifier (some "c1") (daemon_at 1))
      ∷ cannot_shut_down_no_longer_exists (identifier (some "c2") (daemon_at 2))
      ∷ no_daemons_running db
      ∷ []
unfolding handle_disconnect handle_disconnect_results process_disconnects disconnect_all_daemons
    process_results shut_down_all shut_down_but_always_resolve get_daemon_configs map_entries
    map_key set set_all delete delete_daemon store_key base
wrong_warning = refl

two_distinct : HasDistinctKeys two
unfolding get
two_distinct = (refl, (refl, tt))

two_named : get "" two ≡ none
unfolding get
two_named = refl

abbrev first_killed : List (Option String × DisconnectResult)
first_killed = (some "c1", daemon_success_killed (daemon_at 1) killed_gracefully) ∷ []

warns_after_last_gone_example :
    handle_disconnect_results db
      (first_killed ++ (some "c2", daemon_success_killed (daemon_at 2) no_longer_exists) ∷ [])
    ≡ waiting_for_all db
      ∷ (messages_of
            (first_killed ++ (some "c2", daemon_success_killed (daemon_at 2) no_longer_exists) ∷ [])
          ++ no_daemons_running db ∷ [])
warns_after_last_gone_example = warns_after_last_gone db first_killed (some "c2") (daemon_at 2)

abbrev login_config : LoginConfig
login_config = record {
  token_set = none;
  session_id = some "s";
  session_token = some "t";
  whoami = none;
  idp = none;
  auth_scopes = none;
  client_id = none;
  client_secret = none;
  auth_url = none;
}

abbrev stores : Stores
stores = record {
  kube_daemons = [];
  db_daemons = two;
  rdp_daemons = [];
  sqlserver_daemons = two;
  web_daemon = daemon_at 3;
  login = login_config;
}

stores-AreWellFormed : AreWellFormed stores
unfolding get
stores-AreWellFormed = record {
  kube_well = (tt, refl);
  db_well = ((refl, (refl, tt)), refl);
  rdp_well = (tt, refl);
  sqlserver_well = ((refl, (refl, tt)), refl);
}

disconnect_handler-Leaves_example :
    ((disconnect_handler second_gone (resolved tt) "db" stores).0.1 ≡ exited 0)
    × Leaves second_gone "db" stores (disconnect_handler second_gone (resolved tt) "db" stores).1
disconnect_handler-Leaves_example =
    disconnect_handler-Leaves second_gone "db" stores stores-AreWellFormed

logout_handler_lem_example :
    ((logout_handler second_gone stores).0.1 ≡ exited 0)
    × ((logout_handler second_gone stores).1 ≡ record stores {
      db_daemons = [];
      sqlserver_daemons = [];
      web_daemon = without_pid (daemon_at 3);
      login = record login_config { session_id = none };
    })
logout_handler_lem_example = logout_handler_lem second_gone stores stores-AreWellFormed
