-- ===== src/Connect/Starting/Laws.antt =====
-- No daemon is left running that is neither stored nor asked to shut down.
use zli.Prelude.{
  ℕ, nat_key, String, string_key, ◌==◌, Bool, true, false, ◌||◌, ◌&&◌, Option, none, some, any,
  List, Option-cases, ◌≡◌, refl, Bool-cases, inl, inr,
}
use zli.Dict.Defs.{Dict, get}
use zli.Effect.{
  Outcome, returned, exited, threw, Settled, resolved, rejected, Settled-cases, pure, emit, ◌>>◌,
  or_else,
}
use zli.Daemon.Config.{BaseDaemonConfig, DaemonConfig}
use zli.Daemon.Store.{DaemonConfigs, add_daemon}
use zli.Connect.Starting.{
  TcpAppPorts, StartEvent, daemon_spawned, daemon_exited, shut_down_tried, daemons_stored,
  failed_to_start, Connecting, ConnectArgs, DaemonSystem, VerbType, rdp, sql_server, other_verb,
  start_daemon, start_in_background, wait_for_server, check_if_port_available,
  get_or_default_localport, get_or_default_localhost, custom_or, remember_port,
  tcp_app_connect_supported, tcp_app_connect_handler, port_used, tcp_config,
}

abbrev pub is_spawned : StartEvent → Bool
is_spawned (daemon_spawned pid) = true
is_spawned _ = false

abbrev pub is_stored : StartEvent → Bool
is_stored (daemons_stored daemons) = true
is_stored _ = false

abbrev pub is_shut_down : StartEvent → Bool
is_shut_down (shut_down_tried port pid) = true
is_shut_down _ = false

abbrev pub is_success : Outcome ℕ → Bool
is_success (returned code) = code == 0
is_success (exited code) = false
is_success (threw failure) = false

abbrev pub is_exited : StartEvent → Bool
is_exited (daemon_exited pid) = true
is_exited _ = false

-- Whether the daemon ended or was asked to.
abbrev pub is_gone : List StartEvent → Bool
is_gone es = any is_shut_down es || any is_exited es

-- A daemon that was spawned was either stored, or it exited or was asked to shut down, not both, and it
-- was stored just when the handler returns 0.
abbrev pub IsTidy : Connecting ℕ → Type 0
IsTidy run =
    (any is_spawned run.0 ≡ (any is_stored run.0 || is_gone run.0))
    × ((any is_stored run.0 && is_gone run.0) ≡ false)
    × (any is_stored run.0 ≡ is_success run.1)

module _ (s : DaemonSystem) (make : BaseDaemonConfig → DaemonConfig) (id : String)
    (named : (id == "") ≡ false) where
  started-IsTidy :
      (host : String) (port control_port : ℕ) (daemons : DaemonConfigs)
      → IsTidy (
          or_else
            (start_in_background s make (some id) host port control_port daemons)
            (λ failure. emit failed_to_start >> pure 1))
  unfolding start_in_background wait_for_server add_daemon
  started-IsTidy host port control_port daemons = elim (Settled-cases s.spawned) [
    | inl (pid, e) ↦ elim (Option-cases s.exits_early) [
      | inr (code, h) ↦ rw (e, h) (refl, refl, refl)
      | inl h ↦ elim (Settled-cases (s.server_started host port)) [
        | inl (done, f) ↦ rw (e, h, f, named) (refl, refl, refl)
        | inr (failure, f) ↦ elim (Settled-cases s.shut_down) [
          | inl (done, g) ↦ rw (e, h, f, g) (refl, refl, refl)
          | inr (x, g) ↦ rw (e, h, f, g) (refl, refl, refl)
        ]
      ]
    ]
    | inr (failure, e) ↦ rw e (refl, refl, refl)
  ]

  start_daemon-IsTidy :
      (args : ConnectArgs) (host : String) (port : ℕ) (daemons : DaemonConfigs)
      → IsTidy (start_daemon s args make (some id) host port daemons)
  unfolding start_daemon check_if_port_available start_in_background wait_for_server
  start_daemon-IsTidy args host port daemons = elim (Settled-cases (s.port_in_use port)) [
    | inr (failure, e) ↦ rw e (refl, refl, refl)
    | inl (in_use, e) ↦ elim (Bool-cases in_use) [
      | inl u ↦ rw (e, u) (refl, refl, refl)
      | inr u ↦ elim (Settled-cases s.base_env) [
        | inr (failure, f) ↦ rw (e, u, f) (refl, refl, refl)
        | inl (control_port, f) ↦ elim (Settled-cases s.executable) [
          | inr (failure, g) ↦ rw (e, u, f, g) (refl, refl, refl)
          | inl (done, g) ↦ elim (Bool-cases args.debug) [
            | inl d ↦ rw (e, u, f, g, d) (refl, refl, refl)
            | inr d ↦ rw (e, u, f, g, d) (started-IsTidy host port control_port daemons)
          ]
        ]
      ]
    ]
  ]

module _ (s : DaemonSystem) (args : ConnectArgs) (id : String) where
  remember_port-IsTidy :
      (verb : VerbType) (target_id : String) (config : Dict String TcpAppPorts)
      (default_port : Option ℕ) (port : ℕ) (run : Connecting ℕ)
      → IsTidy run
      → IsTidy (remember_port verb target_id config default_port port >> run)
  unfolding remember_port
  remember_port-IsTidy verb target_id config none port run t = t
  remember_port-IsTidy verb target_id config (some p) port run t = elim (Bool-cases (port == p)) [
    | inl e ↦ rw e t
    | inr e ↦ rw e t
  ]

  tcp_app_connect_supported-IsTidy :
      (verb : VerbType) (target_id : String) (bz_target : Settled String)
      (config : Dict String TcpAppPorts) (daemons : DaemonConfigs)
      → (id == "") ≡ false
      → IsTidy (tcp_app_connect_supported s args verb target_id bz_target config (some id) daemons)
  unfolding tcp_app_connect_supported
  tcp_app_connect_supported-IsTidy verb target_id (rejected failure) config daemons named =
      (refl, refl, refl)
  tcp_app_connect_supported-IsTidy verb target_id (resolved name) config daemons named =
      let default_port = port_used verb (get target_id config) in
      elim (Settled-cases (get_or_default_localport s.find_port default_port)) [
        | inr (failure, e) ↦ rw e (refl, refl, refl)
        | inl (port, e) ↦ rw e (
            remember_port-IsTidy verb target_id config default_port port _ (
              start_daemon-IsTidy s (tcp_config verb name) id named args
                (get_or_default_localhost none) (custom_or args.custom_port port) daemons))
      ]

  -- The same of the handler of the TCP applications, for every protocol.
  tcp_app_connect_handler-IsTidy :
      (verb : VerbType) (target_id : String) (bz_target : Settled String)
      (config : Dict String TcpAppPorts) (daemons : DaemonConfigs)
      → (id == "") ≡ false
      → IsTidy (tcp_app_connect_handler s args verb target_id bz_target config (some id) daemons)
  unfolding tcp_app_connect_handler
  tcp_app_connect_handler-IsTidy rdp target_id bz_target config daemons named =
      tcp_app_connect_supported-IsTidy rdp target_id bz_target config daemons named
  tcp_app_connect_handler-IsTidy sql_server target_id bz_target config daemons named =
      tcp_app_connect_supported-IsTidy sql_server target_id bz_target config daemons named
  tcp_app_connect_handler-IsTidy (other_verb verb) target_id bz_target config daemons named =
      (refl, refl, refl)
