-- ===== src/Disconnect/Laws.antt =====
-- Which messages `handleDisconnect` writes.
use zli.Prelude.{
  String, string_key, Bool, false, not, Option, none, List, [], ◌∷◌, ◌++◌, ◌≡◌, refl, ap, ◌∙◌,
  arith, if◌then◌else◌,
}
use zli.Dict.Defs.{get, HasDistinctKeys}
use zli.Daemon.Config.{DaemonConfig, DaemonConfigType, base}
use zli.Daemon.Store.{DaemonConfigs, map_entries}
use zli.Daemon.Service.{
  ProcessManager, no_longer_exists, DisconnectResult, daemon_success_killed, daemon_fail_killed,
  daemon_pid_not_set, shut_down_all,
}
use zli.Daemon.Disconnecting.{disconnect_all_daemons_lem}
use zli.Disconnect.{
  Message, waiting_for_all, shut_down_failed, no_daemons_running, log_kill_daemon_result,
  identifier, existed, process_disconnects, handle_disconnect_results, handle_disconnect,
}

-- The messages about the results themselves: one for each attempt, in order.
pub messages_of : List (Option String × DisconnectResult) → List Message
messages_of [] = []
messages_of ((id, daemon_fail_killed c failure) ∷ rest) =
    shut_down_failed (base c).local_pid failure ∷ messages_of rest
messages_of ((id, daemon_success_killed c kill) ∷ rest) =
    log_kill_daemon_result (identifier id c) kill ∷ messages_of rest
messages_of ((id, daemon_pid_not_set c) ∷ rest) = messages_of rest

-- What the last attempt that did not fail found, or else `did`.
pub last_existed : Bool → List (Option String × DisconnectResult) → Bool
last_existed did [] = did
last_existed did ((id, daemon_success_killed c kill) ∷ rest) = last_existed (existed kill) rest
last_existed did (_ ∷ rest) = last_existed did rest

process_disconnects_lem :
    (did : Bool) (results : List (Option String × DisconnectResult))
    → process_disconnects did results ≡ (messages_of results, last_existed did results)
unfolding process_disconnects messages_of last_existed
process_disconnects_lem did [] = refl
process_disconnects_lem did ((id, daemon_fail_killed c failure) ∷ rest) =
    ground (arith, process_disconnects_lem did rest)
process_disconnects_lem did ((id, daemon_success_killed c kill) ∷ rest) =
    ground (arith, process_disconnects_lem (existed kill) rest)
process_disconnects_lem did ((id, daemon_pid_not_set c) ∷ rest) = process_disconnects_lem did rest

last_existed-append :
    (did : Bool) (before after : List (Option String × DisconnectResult))
    → last_existed did (before ++ after) ≡ last_existed (last_existed did before) after
unfolding last_existed
last_existed-append did [] after = refl
last_existed-append did ((id, daemon_fail_killed c failure) ∷ rest) after =
    last_existed-append did rest after
last_existed-append did ((id, daemon_success_killed c kill) ∷ rest) after =
    last_existed-append (existed kill) rest after
last_existed-append did ((id, daemon_pid_not_set c) ∷ rest) after =
    last_existed-append did rest after

handle_disconnect_results_lem :
    (kind : DaemonConfigType) (results : List (Option String × DisconnectResult))
    → handle_disconnect_results kind results
      ≡ waiting_for_all kind
        ∷ (messages_of results
            ++ (if not (last_existed false results) then no_daemons_running kind ∷ [] else []))
unfolding handle_disconnect_results
handle_disconnect_results_lem kind results = rw (process_disconnects_lem false results)

-- With distinct and nonempty ids, `handleDisconnect` leaves no daemon of its type stored. It
-- announces the wait, then writes one message for each daemon that has a process id, in the order
-- of the store, and then the warning that none was running unless the last attempt that did not
-- fail found its process.
pub handle_disconnect_lem :
    (pm : ProcessManager) (kind : DaemonConfigType) (daemons : DaemonConfigs)
    → HasDistinctKeys daemons
    → get "" daemons ≡ none
    → handle_disconnect pm kind daemons ≡ (
      waiting_for_all kind
          ∷ (messages_of (shut_down_all pm (map_entries daemons))
              ++ (if not (last_existed false (shut_down_all pm (map_entries daemons)))
                  then no_daemons_running kind ∷ []
                  else [])),
      [],
    )
unfolding handle_disconnect
handle_disconnect_lem pm kind daemons distinct named =
    ap (λ r. (handle_disconnect_results kind r.0, r.1))
      (disconnect_all_daemons_lem pm daemons distinct named)
    ∙ ap (λ messages. (messages, []))
        (handle_disconnect_results_lem kind (shut_down_all pm (map_entries daemons)))

-- Whatever was shut down before, when the last attempt finds that its process no longer exists the
-- handler warns that no daemon was running.
pub warns_after_last_gone :
    (kind : DaemonConfigType) (before : List (Option String × DisconnectResult))
    (id : Option String) (c : DaemonConfig)
    → handle_disconnect_results kind (before ++ (id, daemon_success_killed c no_longer_exists) ∷ [])
      ≡ waiting_for_all kind
        ∷ (messages_of (before ++ (id, daemon_success_killed c no_longer_exists) ∷ [])
            ++ no_daemons_running kind ∷ [])
unfolding last_existed existed
warns_after_last_gone kind before id c =
    handle_disconnect_results_lem kind
      (before ++ (id, daemon_success_killed c no_longer_exists) ∷ [])
    ∙ rw (last_existed-append false before ((id, daemon_success_killed c no_longer_exists) ∷ []))
