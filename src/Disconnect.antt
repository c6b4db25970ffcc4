-- ===== src/Disconnect.antt =====
-- handlers/disconnect/disconnect.handler.ts: `handleDisconnect`, over the results of
-- `disconnectAllDaemons`.
pub mod Laws
pub mod Commands
mod Tests
use zli.Prelude.{
  ℕ, String, Bool, true, false, not, Option, none, some, List, [], ◌∷◌, ◌++◌, if◌then◌else◌,
}
use zli.Dict.Defs.{Dict}
use zli.Effect.{Failure}
use zli.Daemon.Config.{DaemonConfig, DaemonConfigType, base, config_type}
use zli.Daemon.Store.{DaemonConfigs}
use zli.Daemon.Service.{
  ProcessManager, KillProcessResultType, killed_gracefully, killed_forcefully, no_longer_exists,
  DisconnectResult, daemon_success_killed, daemon_fail_killed, daemon_pid_not_set,
  disconnect_all_daemons,
}

-- How a message names a daemon: its type, connection id (`N/A` if there is none) and process id.
pub record DaemonIdentifier : Type 0 where
  pub kind : DaemonConfigType
  pub conn_id : Option String
  pub pid : Option ℕ

-- The messages, one constructor for each text of the source.
pub data Message : Type 0 where
  waiting_for_all : DaemonConfigType → Message
  shut_down_failed : Option ℕ → Failure → Message
  shut_down_gracefully shut_down_forcefully : DaemonIdentifier → Message
  cannot_shut_down_no_longer_exists : DaemonIdentifier → Message
  no_daemons_running : DaemonConfigType → Message

-- `logKillDaemonResult` of utils/daemon-utils.ts
unfoldable pub log_kill_daemon_result : DaemonIdentifier → KillProcessResultType → Message
log_kill_daemon_result id killed_gracefully = shut_down_gracefully id
log_kill_daemon_result id killed_forcefully = shut_down_forcefully id
log_kill_daemon_result id no_longer_exists = cannot_shut_down_no_longer_exists id

abbrev pub identifier : Option String → DaemonConfig → DaemonIdentifier
identifier id c = record { kind = config_type c; conn_id = id; pid = (base c).local_pid }

-- `killResult !== 'no_longer_exists'`
unfoldable pub existed : KillProcessResultType → Bool
existed no_longer_exists = false
existed _ = true

-- The loop: the messages, and the last value of `didDisconnect`.
unfoldable pub process_disconnects :
    Bool → List (Option String × DisconnectResult) → List Message × Bool
unfolding existed log_kill_daemon_result
process_disconnects did [] = ([], did)
process_disconnects did ((id, daemon_fail_killed c failure) ∷ rest) =
    let (messages, did') = process_disconnects did rest in
    (shut_down_failed (base c).local_pid failure ∷ messages, did')
process_disconnects did ((id, daemon_success_killed c kill) ∷ rest) =
    let (messages, did') = process_disconnects (existed kill) rest in
    (log_kill_daemon_result (identifier id c) kill ∷ messages, did')
process_disconnects did ((id, daemon_pid_not_set c) ∷ rest) = process_disconnects did rest

unfoldable pub handle_disconnect_results :
    DaemonConfigType → List (Option String × DisconnectResult) → List Message
handle_disconnect_results kind results =
    let (messages, did) = process_disconnects false results in
    waiting_for_all kind ∷ (messages ++ (if not did then no_daemons_running kind ∷ [] else []))

unfoldable pub handle_disconnect :
    ProcessManager → DaemonConfigType → DaemonConfigs → List Message × DaemonConfigs
handle_disconnect pm kind daemons =
    let (results, daemons') = disconnect_all_daemons pm daemons in
    (handle_disconnect_results kind results, daemons')
