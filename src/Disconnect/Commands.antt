-- ===== src/Disconnect/Commands.antt =====
-- `disconnectHandler` of handlers/disconnect/disconnect.handler.ts and `handleLogout` of
-- handlers/logout/logout.handler.ts, over the stored daemons of every type, with
-- `shutDownDaemonAndLog` of utils/daemon-utils.ts.
pub mod Laws
use zli.Prelude.{
  ℕ, String, string_key, ◌==◌, Bool, true, false, ◌||◌, Option, none, some, List, [], ◌∷◌, ◌++◌,
  map, if◌then◌else◌,
}
use zli.Effect.{Failure, Settled, resolved, rejected, Run, Outcome, returned}
use zli.Effect.State.{Stateful, pure, clean_exit, await, gets, emit, modify, ◌>>=◌, ◌>>◌}
use zli.Daemon.Config.{
  BaseDaemonConfig, DaemonConfigType, db, rdp, sqlserver, kube, DaemonConfig, web_config, db_config,
  rdp_config, sqlserver_config, kube_config, base, config_type,
}
use zli.Daemon.Store.{DaemonConfigs}
use zli.Daemon.Service.{ProcessManager, KillProcessResultType}
use zli.Disconnect.{Message, DaemonIdentifier, handle_disconnect, log_kill_daemon_result}
use zli.Login.Config.{LoginConfig, LoginEvent, logout as clear_login}

-- The stored daemons, the web daemon, of which there is one, and the stored login.
pub record Stores : Type 0 where
  pub kube_daemons : DaemonConfigs
  pub db_daemons : DaemonConfigs
  pub rdp_daemons : DaemonConfigs
  pub sqlserver_daemons : DaemonConfigs
  pub web_daemon : DaemonConfig
  pub login : LoginConfig

pub data CommandEvent : Type 0 where
  disconnecting : Message → CommandEvent
  waiting_for_daemon : DaemonConfigType → CommandEvent
  daemon_shut_down : Option ℕ → KillProcessResultType → CommandEvent
  daemon_not_shut_down : Option ℕ → Failure → CommandEvent
  killed_web_daemon no_web_daemon : CommandEvent
  login_event : LoginEvent → CommandEvent
  kube_config_filtered : CommandEvent
  ssh_key_removed known_hosts_removed logout_successful : CommandEvent

abbrev pub Command : Type 0 → Type 0
Command A = Stateful Stores CommandEvent A

-- `localPid = null`
unfoldable pub without_pid : DaemonConfig → DaemonConfig
without_pid (web_config b name) = web_config (record b { local_pid = none }) name
without_pid (db_config b name) = db_config (record b { local_pid = none }) name
without_pid (rdp_config b name) = rdp_config (record b { local_pid = none }) name
without_pid (sqlserver_config b name) = sqlserver_config (record b { local_pid = none }) name
without_pid (kube_config b details) = kube_config (record b { local_pid = none }) details

abbrev pub told : Option ℕ → Settled KillProcessResultType → CommandEvent
told pid (resolved result) = daemon_shut_down pid result
told pid (rejected failure) = daemon_not_shut_down pid failure

module _ (pm : ProcessManager) where
  abbrev pub shut_down_pid : DaemonConfig → Option ℕ → List CommandEvent
  shut_down_pid config none = []
  shut_down_pid config (some pid) =
      waiting_for_daemon (config_type config)
      ∷ told (some pid) (pm.try_shut_down_process (base config).control_port pid)
      ∷ []

  -- `shutDownDaemonAndLog`, which throws nothing.
  unfoldable pub shut_down_daemon_and_log : DaemonConfig → Command (Unit {0})
  shut_down_daemon_and_log config s =
      ((shut_down_pid config (base config).local_pid, returned tt), s)

  abbrev pub stored_of : DaemonConfigType → Stores → DaemonConfigs
  stored_of kube s = s.kube_daemons
  stored_of db s = s.db_daemons
  stored_of rdp s = s.rdp_daemons
  stored_of sqlserver s = s.sqlserver_daemons
  stored_of DaemonConfigType.web s = []

  abbrev pub store : DaemonConfigType → DaemonConfigs → Stores → Stores
  store kube daemons s = record s { kube_daemons = daemons }
  store db daemons s = record s { db_daemons = daemons }
  store rdp daemons s = record s { rdp_daemons = daemons }
  store sqlserver daemons s = record s { sqlserver_daemons = daemons }
  store DaemonConfigType.web daemons s = s

  -- `handleDisconnect` with the service of one type of daemon.
  unfoldable pub disconnect : DaemonConfigType → Command (Unit {0})
  disconnect kind s =
      let (messages, daemons) = handle_disconnect pm kind (stored_of kind s) in
      ((map disconnecting messages, returned tt), store kind daemons s)

  unfoldable pub forget_web_pid : Command (Unit {0})
  forget_web_pid = modify (λ s. record s { web_daemon = without_pid s.web_daemon })

  abbrev pub disconnect_web_of : Option ℕ → Command (Unit {0})
  disconnect_web_of none = emit no_web_daemon
  disconnect_web_of (some pid) = do
    config ← gets (λ s. s.web_daemon)
    shut_down_daemon_and_log config
    forget_web_pid
    emit killed_web_daemon

  abbrev pub disconnect_web : Command (Unit {0})
  disconnect_web = do pid ← gets (λ s. (base s.web_daemon).local_pid); disconnect_web_of pid

  abbrev pub when : Bool → Command (Unit {0}) → Command (Unit {0})
  when true m = m
  when false m = pure tt

  -- `filtered` is how the removal of stale entries from the user's kube config settles.
  abbrev pub filter_kube_config : Settled (Unit {0}) → Command (Unit {0})
  filter_kube_config filtered = await filtered >> emit kube_config_filtered

  unfoldable pub disconnect_handler :
      Settled (Unit {0}) → (target_type : String) → Command (Unit {0})
  disconnect_handler filtered target_type = do
    when (target_type == "all" || target_type == "kube")
        (disconnect kube >> filter_kube_config filtered)
    when (target_type == "all" || target_type == "web") disconnect_web
    when (target_type == "all" || target_type == "db") (disconnect db)
    when (target_type == "all" || target_type == "rdp") (disconnect rdp)
    when (target_type == "all" || target_type == "sqlserver") (disconnect sqlserver)
    clean_exit 0

  abbrev pub at_login :
      {A : Type 0} → Stores → Run LoginEvent A × LoginConfig → Run CommandEvent A × Stores
  at_login s ((es, r), c) = ((map login_event es, r), record s { login = c })

  abbrev pub clear_session_id : Stores → Stores
  clear_session_id s = record s { login = record s.login { session_id = none } }

  unfoldable pub handle_logout : Command (Unit {0})
  handle_logout = do
    λ s. at_login s (clear_login s.login)
    modify clear_session_id
    emit ssh_key_removed
    emit known_hosts_removed
    disconnect kube
    disconnect db
    disconnect rdp
    disconnect sqlserver
    config ← gets (λ s. s.web_daemon)
    shut_down_daemon_and_log config
    forget_web_pid
    emit logout_successful

  -- `logoutHandler`
  unfoldable pub logout_handler : Command (Unit {0})
  logout_handler = do handle_logout; clean_exit 0
