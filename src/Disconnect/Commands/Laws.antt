-- ===== src/Disconnect/Commands/Laws.antt =====
-- What the commands leave stored.
use zli.Prelude.{
  ℕ, String, string_key, ◌==◌, Bool, true, false, ◌||◌, Option, none, some, List, [], ◌∷◌, ◌++◌,
  map, ◌≡◌, refl, ap, if◌then◌else◌,
}
use zli.Dict.Defs.{get, HasDistinctKeys}
use zli.Effect.{resolved, returned, exited}
use zli.Effect.State.{continue, ◌>>◌}
use zli.Daemon.Config.{
  BaseDaemonConfig, DaemonConfigType, db, rdp, sqlserver, kube, DaemonConfig, web_config, db_config,
  rdp_config, sqlserver_config, kube_config, base,
}
use zli.Daemon.Store.{DaemonConfigs}
use zli.Daemon.Service.{ProcessManager}
use zli.Disconnect.{handle_disconnect}
use zli.Disconnect.Laws.{handle_disconnect_lem}
use zli.Login.Config.{logout as clear_login}
use zli.Disconnect.Commands.{
  Stores, CommandEvent, filter_kube_config, kube_config_filtered, disconnecting, without_pid,
  shut_down_daemon_and_log, stored_of, store, disconnect, forget_web_pid, disconnect_web_of,
  disconnect_web, when, disconnect_handler, handle_logout, logout_handler,
}

abbrev pub IsWellFormed : DaemonConfigs → Type 0
IsWellFormed daemons = HasDistinctKeys daemons × (get "" daemons ≡ none)

-- Every type of daemon is stored under distinct ids that are not empty.
pub record AreWellFormed (s : Stores) : Type 0 where
  pub kube_well : IsWellFormed s.kube_daemons
  pub db_well : IsWellFormed s.db_daemons
  pub rdp_well : IsWellFormed s.rdp_daemons
  pub sqlserver_well : IsWellFormed s.sqlserver_daemons

stopped_base : (b : BaseDaemonConfig) → b.local_pid ≡ none → b ≡ record b { local_pid = none }
stopped_base b e = λ i. record b { local_pid = e i }

-- The configuration with another part that all types have in common.
abbrev pub with_base : BaseDaemonConfig → DaemonConfig → DaemonConfig
with_base b (web_config c name) = web_config b name
with_base b (db_config c name) = db_config b name
with_base b (rdp_config c name) = rdp_config b name
with_base b (sqlserver_config c name) = sqlserver_config b name
with_base b (kube_config c details) = kube_config b details

-- A selected daemon has no process id any more and is otherwise as it was; another is as it was.
abbrev pub ForgetsPid : Bool → DaemonConfig → DaemonConfig → Type 0
ForgetsPid true config config' =
    (base config' ≡ record (base config) { local_pid = none })
    × (with_base (base config) config' ≡ config)
ForgetsPid false config config' = config' ≡ config

without_pid-ForgetsPid : (config : DaemonConfig) → ForgetsPid true config (without_pid config)
unfolding without_pid base
without_pid-ForgetsPid (web_config b name) = (refl, refl)
without_pid-ForgetsPid (db_config b name) = (refl, refl)
without_pid-ForgetsPid (rdp_config b name) = (refl, refl)
without_pid-ForgetsPid (sqlserver_config b name) = (refl, refl)
without_pid-ForgetsPid (kube_config b details) = (refl, refl)

stopped-ForgetsPid :
    (config : DaemonConfig) → (base config).local_pid ≡ none → ForgetsPid true config config
unfolding base
stopped-ForgetsPid (web_config b name) e = (stopped_base b e, refl)
stopped-ForgetsPid (db_config b name) e = (stopped_base b e, refl)
stopped-ForgetsPid (rdp_config b name) e = (stopped_base b e, refl)
stopped-ForgetsPid (sqlserver_config b name) e = (stopped_base b e, refl)
stopped-ForgetsPid (kube_config b details) e = (stopped_base b e, refl)

module _ (pm : ProcessManager) where
  disconnect-eq :
      (kind : DaemonConfigType) (s : Stores)
      → IsWellFormed (stored_of pm kind s)
      → (es : List CommandEvent) × (disconnect pm kind s ≡ ((es, returned tt), store pm kind [] s))
  unfolding disconnect
  disconnect-eq kind s (distinct, named) =
      let es = map disconnecting (handle_disconnect pm kind (stored_of pm kind s)).0 in
      let cleared : (handle_disconnect pm kind (stored_of pm kind s)).1 ≡ [] =
        ap (λ r. r.1) (handle_disconnect_lem pm kind (stored_of pm kind s) distinct named) in
      (es, ap (λ daemons. ((es, returned tt), store pm kind daemons s)) cleared)

  when-disconnect-eq :
      (b : Bool) (kind : DaemonConfigType) (s : Stores)
      → IsWellFormed (stored_of pm kind s)
      → (es : List CommandEvent) × (when pm b (disconnect pm kind) s
          ≡ ((es, returned tt), store pm kind (if b then [] else stored_of pm kind s) s))
  when-disconnect-eq true kind s h = disconnect-eq kind s h
  when-disconnect-eq false kube s h = ([], refl)
  when-disconnect-eq false db s h = ([], refl)
  when-disconnect-eq false rdp s h = ([], refl)
  when-disconnect-eq false sqlserver s h = ([], refl)
  when-disconnect-eq false DaemonConfigType.web s h = ([], refl)

  disconnect_web_of-eq :
      (pid : Option ℕ) (s : Stores)
      → (base s.web_daemon).local_pid ≡ pid
      → (es : List CommandEvent) × (w : DaemonConfig) × (disconnect_web_of pm pid s
          ≡ ((es, returned tt), record s { web_daemon = w }))
        × ForgetsPid true s.web_daemon w
  unfolding shut_down_daemon_and_log forget_web_pid
  disconnect_web_of-eq none s e = (_, s.web_daemon, refl, stopped-ForgetsPid s.web_daemon e)
  disconnect_web_of-eq (some pid) s e =
      (_, without_pid s.web_daemon, refl, without_pid-ForgetsPid s.web_daemon)

  when_web-eq :
      (b : Bool) (s : Stores)
      → (es : List CommandEvent) × (w : DaemonConfig) × (when pm b (disconnect_web pm) s
          ≡ ((es, returned tt), record s { web_daemon = w }))
        × ForgetsPid b s.web_daemon w
  when_web-eq true s = disconnect_web_of-eq (base s.web_daemon).local_pid s refl
  when_web-eq false s = ([], s.web_daemon, refl, refl)

  -- The daemons of a type that is selected by `all` or by its name are gone, those of another type
  -- stay as they are.
  abbrev pub Leaves : String → Stores → Stores → Type 0
  Leaves target_type s s' =
      (s'.kube_daemons
        ≡ (if target_type == "all" || target_type == "kube" then [] else s.kube_daemons))
      × (s'.db_daemons ≡ (if target_type == "all" || target_type == "db" then [] else s.db_daemons))
      × (s'.rdp_daemons
          ≡ (if target_type == "all" || target_type == "rdp" then [] else s.rdp_daemons))
      × (s'.sqlserver_daemons ≡ (
          if target_type == "all" || target_type == "sqlserver" then [] else s.sqlserver_daemons))
      × ForgetsPid (target_type == "all" || target_type == "web") s.web_daemon s'.web_daemon
      × (s'.login ≡ s.login)

  kube_step-eq :
      (b : Bool) (s : Stores)
      → IsWellFormed s.kube_daemons
      → (es : List CommandEvent) × (when pm b
            (disconnect pm kube >> filter_kube_config pm (resolved tt))
            s
          ≡ ((es, returned tt), record s { kube_daemons = if b then [] else s.kube_daemons }))
  kube_step-eq false s h = ([], refl)
  kube_step-eq true s h =
      let (es, e) = disconnect-eq kube s h in
      (
        es ++ kube_config_filtered ∷ [],
        ap (λ r. continue r (λ _. filter_kube_config pm (resolved tt))) e,
      )

  -- With distinct and nonempty ids, and when the stale entries of the kube config could be removed,
  -- the command leaves the process with code 0. Then the daemons of the selected types are no longer
  -- stored and the web daemon, if it is selected, has no process id and is otherwise as it was; what
  -- is not selected, and the login, is as it was.
  pub disconnect_handler-Leaves :
      (target_type : String) (s : Stores)
      → AreWellFormed s
      → ((disconnect_handler pm (resolved tt) target_type s).0.1 ≡ exited 0)
        × Leaves target_type s (disconnect_handler pm (resolved tt) target_type s).1
  unfolding disconnect_handler
  disconnect_handler-Leaves t s h =
      let (es, e) = kube_step-eq (t == "all" || t == "kube") s h.kube_well in
      let s1 = record s {
        kube_daemons = if t == "all" || t == "kube" then [] else s.kube_daemons;
      } in
      let (fs, w, f, none_left) = when_web-eq (t == "all" || t == "web") s1 in
      let s2 = record s1 { web_daemon = w } in
      let (gs, g) = when-disconnect-eq (t == "all" || t == "db") db s2 h.db_well in
      let s3 = store pm db (if t == "all" || t == "db" then [] else s2.db_daemons) s2 in
      let (hs, k) = when-disconnect-eq (t == "all" || t == "rdp") rdp s3 h.rdp_well in
      let s4 = store pm rdp (if t == "all" || t == "rdp" then [] else s3.rdp_daemons) s3 in
      let (ks, l) =
        when-disconnect-eq (t == "all" || t == "sqlserver") sqlserver s4 h.sqlserver_well in
      rw (e, f, g, k, l) (refl, (refl, refl, refl, refl, none_left, refl))

  -- A logout, with distinct and nonempty ids: no daemon of the four types stays stored, the web daemon
  -- has no process id, and the tokens and the session id are gone, whatever the attempts to shut
  -- processes down gave. The session token and the subject stay.
  pub logout_handler_lem :
      (s : Stores)
      → AreWellFormed s
      → ((logout_handler pm s).0.1 ≡ exited 0)
        × ((logout_handler pm s).1 ≡ record {
          kube_daemons = [];
          db_daemons = [];
          rdp_daemons = [];
          sqlserver_daemons = [];
          web_daemon = without_pid s.web_daemon;
          login = record s.login { token_set = none; session_id = none };
        })
  unfolding logout_handler handle_logout forget_web_pid clear_login shut_down_daemon_and_log
  logout_handler_lem s h =
      let s0 = record s { login = record s.login { token_set = none; session_id = none } } in
      let (es, e) = disconnect-eq kube s0 h.kube_well in
      let s1 = record s0 { kube_daemons = [] } in
      let (fs, f) = disconnect-eq db s1 h.db_well in
      let s2 = record s1 { db_daemons = [] } in
      let (gs, g) = disconnect-eq rdp s2 h.rdp_well in
      let s3 = record s2 { rdp_daemons = [] } in
      let (hs, k) = disconnect-eq sqlserver s3 h.sqlserver_well in rw (e, f, g, k) (refl, refl)
