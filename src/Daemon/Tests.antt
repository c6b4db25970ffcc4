-- ===== src/Daemon/Tests.antt =====
-- The daemon service at a store of three daemons, of which one runs.
use zli.Prelude.{
  ℕ, String, nat_key, string_key, option_key, ◌==◌, true, false, not, ◌&&◌, Option, none, some, [],
  ◌∷◌, ◌≡◌, refl, filter,
}
use zli.Dict.Defs.{Dict, get, set, set_all, delete, HasDistinctKeys}
use zli.Effect.{resolved}
use zli.Daemon.Config.{DaemonConfig, db_config, kube_config, base, BaseDaemonConfig}
use zli.Daemon.Store.{
  DaemonConfigs, map_key, map_entries, get_daemon_configs, add_daemon, delete_daemon, store_key,
}
use zli.Daemon.Service.{
  ProcessManager, killed_gracefully, DaemonStatus, no_daemon_running, daemon_quit_unexpectedly,
  daemon_is_running, kube_status, local_url, get_all_daemon_statuses, statuses_from,
  handle_daemon_status, get_daemon_status, find_running_daemon_with_connection_id,
  find_running_daemon_with_predicate, get_all_running_daemons, get_all_running_daemons_from,
  disconnect_all_daemons, shut_down_all, process_results,
}
use zli.Daemon.Statuses.{has_groups, alive, statuses_of, get_all_daemon_statuses_lem}
use zli.Daemon.Running.{running_of, find_running_daemon_with_connection_id_lem}
use zli.Daemon.Disconnecting.{disconnect_all_daemons_lem}
use zli.Daemon.Reach.{migrated, next, added, asked_all, IsWellFormed, Reach-IsWellFormed}

abbrev at_pid : Option ℕ → BaseDaemonConfig
at_pid pid = record {
  local_host = some "localhost";
  local_port = some 5432;
  local_pid = pid;
  control_port = some 9000;
}

abbrev old_db : DaemonConfig
old_db = db_config (at_pid none) (some "old")

abbrev db : DaemonConfig
db = db_config (at_pid (some 7)) (some "db")

abbrev kube : DaemonConfig
kube = kube_config (at_pid (some 8)) (record {
  target_user = some "foo";
  target_groups = some ("g" ∷ "h" ∷ []);
  target_cluster = some "cluster";
  default_namespace = none;
})

abbrev stored : DaemonConfigs
stored = ("n/a", old_db) ∷ ("c1", db) ∷ ("c2", kube) ∷ []

abbrev pm : ProcessManager
pm = record {
  is_process_running = λ pid. pid == 8;
  try_shut_down_process = λ port pid. resolved killed_gracefully;
}

stored_distinct : HasDistinctKeys stored
unfolding get
stored_distinct = (refl, (refl, (refl, tt)))

stored_named : get "" stored ≡ none
unfolding get
stored_named = refl

daemon_tests : Unit {0}
unfolding get set set_all delete map_key map_entries get_daemon_configs add_daemon delete_daemon
    store_key get_all_daemon_statuses statuses_from handle_daemon_status get_daemon_status
    find_running_daemon_with_connection_id find_running_daemon_with_predicate
    get_all_running_daemons get_all_running_daemons_from disconnect_all_daemons process_results
    shut_down_all base
daemon_tests = tt

abbrev all_statuses : Dict (Option String) DaemonStatus
all_statuses =
    (none, no_daemon_running none old_db)
    ∷ (some "c1", daemon_quit_unexpectedly (some "c1") db)
    ∷ (
      some "c2",
      daemon_is_running (some "c2") kube
          (kube_status (local_url (at_pid (some 8))) (some "cluster") (some "foo") "g,h"),
    )
    ∷ []

statuses_test : get_all_daemon_statuses pm false stored ≡ (resolved all_statuses, stored)
unfolding daemon_tests
statuses_test = refl

removed_test : (get_all_daemon_statuses pm true stored).1 ≡ ("c2", kube) ∷ []
unfolding daemon_tests
removed_test = refl

disconnected_test : (disconnect_all_daemons pm stored).1 ≡ []
unfolding daemon_tests
disconnected_test = refl

-- The store of a migrated configuration; `deleteDaemon` finds its key again.
legacy_removed : (get_daemon_status pm none true (("n/a", old_db) ∷ [])).1 ≡ []
unfolding daemon_tests
legacy_removed = refl

get_all_daemon_statuses_example : get_all_daemon_statuses pm true stored ≡ (
  resolved (statuses_of pm (map_entries stored)),
  filter (λ e. not (true && not (alive pm e.1))) stored,
)
unfolding has_groups
get_all_daemon_statuses_example =
    get_all_daemon_statuses_lem pm true stored stored_distinct stored_named refl

find_running_daemon_with_connection_id_example :
    (find_running_daemon_with_connection_id all_statuses (map_key "c2")
      ≡ running_of pm (map_key "c2") (get "c2" stored))
    × (stored ≡ stored)
unfolding has_groups
find_running_daemon_with_connection_id_example =
    find_running_daemon_with_connection_id_lem pm stored stored all_statuses "c2" stored_distinct
      stored_named refl statuses_test

disconnect_all_daemons_example :
    disconnect_all_daemons pm stored ≡ (shut_down_all pm (map_entries stored), [])
disconnect_all_daemons_example = disconnect_all_daemons_lem pm stored stored_distinct stored_named

abbrev after_calls : DaemonConfigs
after_calls =
    (get_all_daemon_statuses pm true (add_daemon (some "c2") kube (("n/a", old_db) ∷ [])).1).1

Reach-IsWellFormed_example : IsWellFormed after_calls
Reach-IsWellFormed_example =
    Reach-IsWellFormed (next (next (migrated old_db) (added (some "c2") kube)) (asked_all pm true))
