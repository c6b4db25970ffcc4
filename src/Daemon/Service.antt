-- ===== src/Daemon/Service.antt =====
-- The statuses of the daemons, and shutting all of them down.
use zli.Prelude.{
  ℕ, String, string_key, option_key, ◌==◌, Bool, true, false, ◌&&◌, Option, none, some, List, [],
  ◌∷◌, ◌++◌, find, if◌then◌else◌,
}
use Prim.Native.String
use zli.Dict.Defs.{Dict, get, set, values}
use zli.Effect.{Settled, resolved, rejected, Failure, error, type_error}
use zli.Daemon.Config.{
  DaemonConfig, web_config, db_config, rdp_config, sqlserver_config, kube_config, BaseDaemonConfig,
  base,
}
use zli.Daemon.Store.{DaemonConfigs, get_daemon_configs, delete_daemon}

pub data KillProcessResultType : Type 0 where
  killed_gracefully killed_forcefully no_longer_exists : KillProcessResultType

-- `ProcessManager`. The answers are those of one moment: a process that is asked for twice during
-- one call of the service is in the same state both times.
pub record ProcessManager : Type 0 where
  pub is_process_running : ℕ → Bool
  pub try_shut_down_process : Option ℕ → ℕ → Settled KillProcessResultType

-- The text `${config.localHost}:${config.localPort}`, by its two holes.
pub record LocalUrl : Type 0 where
  pub host : Option String
  pub port : Option ℕ

pub data DaemonRunningStatus : Type 0 where
  web_status db_status rdp_status sqlserver_status :
      (target_name : Option String) → LocalUrl → DaemonRunningStatus
  kube_status :
      LocalUrl
      → (target_cluster target_user : Option String) → (target_groups : String)
      → DaemonRunningStatus

pub data DaemonStatus : Type 0 where
  no_daemon_running daemon_quit_unexpectedly : Option String → DaemonConfig → DaemonStatus
  daemon_is_running : Option String → DaemonConfig → DaemonRunningStatus → DaemonStatus

-- `texts.join(separator)`
unfoldable pub join : String → List String → String
join separator [] = ""
join separator (text ∷ []) = text
join separator (text ∷ more ∷ rest) =
    String.◌++◌ text (String.◌++◌ separator (join separator (more ∷ rest)))

abbrev pub local_url : BaseDaemonConfig → LocalUrl
local_url b = record { host = b.local_host; port = b.local_port }

-- The `switch` of `handleDaemonStatus`. `config.targetGroups.join` throws on `null`.
unfoldable pub running_status : DaemonConfig → Settled DaemonRunningStatus
unfolding join
running_status (web_config b name) = resolved (web_status name (local_url b))
running_status (db_config b name) = resolved (db_status name (local_url b))
running_status (rdp_config b name) = resolved (rdp_status name (local_url b))
running_status (sqlserver_config b name) = resolved (sqlserver_status name (local_url b))
running_status (kube_config b k) = elim k.target_groups [
  | none ↦ rejected type_error
  | some groups ↦
      resolved (kube_status (local_url b) k.target_cluster k.target_user (join "," groups))
]

abbrev pub when_running :
    Option String → DaemonConfig → Settled DaemonRunningStatus → Settled DaemonStatus
when_running id config (resolved status) = resolved (daemon_is_running id config status)
when_running id config (rejected failure) = rejected failure

-- How a template string prints a connection id.
abbrev pub id_text : Option String → String
id_text none = "undefined"
id_text (some id) = id

module _ (pm : ProcessManager) where
  -- `shouldRemoveFromConfig` is the argument `remove`.
  unfoldable pub handle_daemon_status :
      Option String → DaemonConfig → Bool → DaemonConfigs → Settled DaemonStatus × DaemonConfigs
  unfolding running_status
  handle_daemon_status id config remove daemons =
      let removed = if remove then delete_daemon id daemons else daemons in
      elim (base config).local_pid [
        | none ↦ (resolved (no_daemon_running id config), removed)
        | some pid ↦
            if pm.is_process_running pid
            then (when_running id config (running_status config), daemons)
            else (resolved (daemon_quit_unexpectedly id config), removed)
      ]

  unfoldable pub get_daemon_status :
      Option String → Bool → DaemonConfigs → Settled DaemonStatus × DaemonConfigs
  get_daemon_status id remove daemons = elim (get id (get_daemon_configs daemons)) [
    | none ↦ (
      rejected (error (String.◌++◌ "There is no daemon with connection ID: " (id_text id))),
      daemons,
    )
    | some config ↦ handle_daemon_status id config remove daemons
  ]

  abbrev pub StatusMap : Type 0
  StatusMap = Dict (Option String) DaemonStatus

  -- The loop of `getAllDaemonStatuses` over the remaining entries; a throw ends it.
  unfoldable pub statuses_from :
      Bool
      → List (Option String × DaemonConfig)
      → StatusMap
      → DaemonConfigs
      → Settled StatusMap × DaemonConfigs
  statuses_from remove [] result daemons = (resolved result, daemons)
  statuses_from remove ((id, config) ∷ rest) result daemons =
      let (outcome, daemons') = handle_daemon_status id config remove daemons in
      elim outcome [
        | resolved status ↦ statuses_from remove rest (set id status result) daemons'
        | rejected failure ↦ (rejected failure, daemons')
      ]

  unfoldable pub get_all_daemon_statuses : Bool → DaemonConfigs → Settled StatusMap × DaemonConfigs
  get_all_daemon_statuses remove daemons =
      statuses_from remove (get_daemon_configs daemons) [] daemons

pub data DisconnectResult : Type 0 where
  daemon_success_killed : DaemonConfig → KillProcessResultType → DisconnectResult
  daemon_fail_killed : DaemonConfig → Failure → DisconnectResult
  daemon_pid_not_set : DaemonConfig → DisconnectResult

abbrev pub kill_outcome : DaemonConfig → Settled KillProcessResultType → DisconnectResult
kill_outcome config (resolved result) = daemon_success_killed config result
kill_outcome config (rejected failure) = daemon_fail_killed config failure

module _ (pm : ProcessManager) where
  unfoldable pub shut_down_but_always_resolve : DaemonConfig → DisconnectResult
  shut_down_but_always_resolve config = elim (base config).local_pid [
    | none ↦ daemon_pid_not_set config
    | some pid ↦ kill_outcome config (pm.try_shut_down_process (base config).control_port pid)
  ]

  -- The results, in the order of the entries: `Promise.all` keeps it whatever order the requests
  -- finish in.
  unfoldable pub shut_down_all :
      List (Option String × DaemonConfig) → List (Option String × DisconnectResult)
  shut_down_all [] = []
  shut_down_all ((id, config) ∷ rest) =
      (id, shut_down_but_always_resolve config) ∷ shut_down_all rest

  -- The loop over the results.
  unfoldable pub process_results :
      List (Option String × DisconnectResult)
      → Dict (Option String) DisconnectResult
      → DaemonConfigs
      → Dict (Option String) DisconnectResult × DaemonConfigs
  process_results [] result_map daemons = (result_map, daemons)
  process_results ((id, result) ∷ rest) result_map daemons =
      process_results rest (set id result result_map) (delete_daemon id daemons)

  unfoldable pub disconnect_all_daemons :
      DaemonConfigs → Dict (Option String) DisconnectResult × DaemonConfigs
  disconnect_all_daemons daemons =
      process_results (shut_down_all (get_daemon_configs daemons)) [] daemons

-- The functions below the class, over the map that `getAllDaemonStatuses(false)` returns.
abbrev pub is_running : DaemonStatus → Bool
is_running (daemon_is_running id config status) = true
is_running _ = false

unfoldable pub find_running_daemon_with_connection_id :
    Dict (Option String) DaemonStatus → Option String → Option DaemonStatus
find_running_daemon_with_connection_id [] connection_id = none
find_running_daemon_with_connection_id ((found_id, result) ∷ rest) connection_id =
    if found_id == connection_id && is_running result
    then some result
    else find_running_daemon_with_connection_id rest connection_id

unfoldable pub get_all_running_daemons_from :
    List DaemonStatus → List DaemonStatus → List DaemonStatus
get_all_running_daemons_from acc [] = acc
get_all_running_daemons_from acc (status ∷ rest) =
    get_all_running_daemons_from (if is_running status then acc ++ status ∷ [] else acc) rest

unfoldable pub get_all_running_daemons : Dict (Option String) DaemonStatus → List DaemonStatus
get_all_running_daemons statuses = get_all_running_daemons_from [] (values statuses)

unfoldable pub find_running_daemon_with_predicate :
    Dict (Option String) DaemonStatus → (DaemonStatus → Bool) → Option DaemonStatus
find_running_daemon_with_predicate statuses search_predicate =
    find search_predicate (get_all_running_daemons statuses)
