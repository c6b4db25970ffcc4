-- ===== src/Connect/Handler.antt =====
-- connectHandler of handlers/connect/connect.handler.ts.
pub mod Laws
mod Tests
use zli.Prelude.{
  ℕ, nat_key, String, string_key, ◌==◌, Bool, true, false, Option, none, some, List, [], ◌∷◌, map,
  if◌then◌else◌,
}
use zli.Dict.Defs.{Dict}
use zli.Effect.{
  Failure, Outcome, Run, pure, throw, or_else, emit, Settled, resolved, rejected, ◌>>=◌, ◌>>◌,
}
use zli.Daemon.Store.{DaemonConfigs}
use zli.Connect.ExitCodes.{ConnectionMessage, handle_exit_code}
use zli.Connect.Starting.{
  StartEvent, ConnectArgs, DaemonSystem, DbTarget, VerbType, TcpAppPorts, db_connect_handler,
  tcp_app_connect_handler,
}

pub data TargetType : Type 0 where
  bzero ssm_target dynamic_access_config db web kubernetes cluster : TargetType
  other_type : String → TargetType

-- What is read of the answer of the backend. `is_windows_agent` is `agentType == AgentType.Windows`.
pub record UniversalConnection : Type 0 where
  pub target_type : TargetType
  pub connection_id : Option String
  pub is_windows_agent : Bool
  pub verb_type : VerbType
  pub target_id : String

-- What the request has beside the parts of the target string, the type of the target and the verb.
pub record ConnectionRequest : Type 0 where
  pub target_user : Option String
  pub target_groups : List String

pub data ConnectEvent : Type 0 where
  connection_tracked : TargetType → ConnectEvent
  target_user_ignored : ConnectEvent
  sub_handler : StartEvent → ConnectEvent
  exit_message_logged : ConnectionMessage → ConnectEvent
  unhandled_target_type : ConnectEvent
  connection_closed : (connection_id : Option String) → ConnectEvent

-- The number that the handler returns.
pub data ConnectResult : Type 0 where
  with_code : ℕ → ConnectResult
  minus_one : ConnectResult

-- What the handler reads and calls: the user of the target string and the one that is configured, the
-- target groups, the backend, the stored ports and daemons, and what the sub-handlers ask of the
-- system. The handlers of shells, web targets and kube clusters are whole.
pub record ConnectSystem : Type 0 where
  pub parsed_user : Option String
  pub configured_user : Option String
  pub target_groups : List String
  pub default_target_groups : Option (List String)
  pub create : ConnectionRequest → Settled UniversalConnection
  pub close : Settled (Unit {0})
  pub args : ConnectArgs
  pub system : DaemonSystem
  pub db_target : Settled DbTarget
  pub bz_target : Settled String
  pub ports : Dict String TcpAppPorts
  pub daemons : DaemonConfigs
  pub shell_connect_handler : Run StartEvent ℕ
  pub web_connect_handler : Run StartEvent ℕ
  pub start_kube_daemon_handler : Run StartEvent ℕ

abbrev pub Handling : Type 0 → Type 0
Handling A = Run ConnectEvent A

abbrev pub is_given : Option String → Bool
is_given none = false
is_given (some text) = if text == "" then false else true

-- `if (!targetUser) targetUser = configured`
unfoldable pub target_user_of : Option String → Option String → Option String
target_user_of parsed configured = if is_given parsed then parsed else configured

-- The default groups, when none are passed and there are some.
unfoldable pub target_groups_of : List String → Option (List String) → List String
target_groups_of [] (some groups) = groups
target_groups_of groups _ = groups

abbrev pub in_sub_handler : Run StartEvent ℕ → Handling ConnectResult
in_sub_handler (es, r) = (map sub_handler es, r) >>= (λ code. pure (with_code code))

abbrev pub exit_message : Option ConnectionMessage → Handling (Unit {0})
exit_message none = pure tt
exit_message (some message) = emit (exit_message_logged message)

abbrev pub message_of_code : ConnectResult → Handling (Unit {0})
message_of_code minus_one = pure tt
message_of_code (with_code code) =
    if code == 0 then pure tt else exit_message (handle_exit_code (some code))

unfoldable pub call_shell_connect_handler : Run StartEvent ℕ → Handling ConnectResult
call_shell_connect_handler shell = do
  result ← in_sub_handler shell
  message_of_code result
  pure result

abbrev pub warn_of_user : Option String → Handling (Unit {0})
warn_of_user target_user = if is_given target_user then emit target_user_ignored else pure tt

module _ (s : ConnectSystem) where
  abbrev pub connect_bzero : Option String → UniversalConnection → Bool → Handling ConnectResult
  connect_bzero target_user c true = do
    warn_of_user target_user
    in_sub_handler (
        tcp_app_connect_handler s.system s.args c.verb_type c.target_id s.bz_target s.ports
          c.connection_id s.daemons)
  connect_bzero target_user c false = call_shell_connect_handler s.shell_connect_handler

  -- The `switch` over the type of the target.
  abbrev pub connect_by_type :
      Option String → UniversalConnection → TargetType → Handling ConnectResult
  connect_by_type target_user c bzero = connect_bzero target_user c c.is_windows_agent
  connect_by_type target_user c ssm_target = call_shell_connect_handler s.shell_connect_handler
  connect_by_type target_user c dynamic_access_config =
      call_shell_connect_handler s.shell_connect_handler
  connect_by_type target_user c db =
      in_sub_handler (db_connect_handler s.system s.args s.db_target c.connection_id s.daemons)
  connect_by_type target_user c web = do
    warn_of_user target_user
    in_sub_handler s.web_connect_handler
  connect_by_type target_user c kubernetes = in_sub_handler s.start_kube_daemon_handler
  connect_by_type target_user c cluster = in_sub_handler s.start_kube_daemon_handler
  connect_by_type target_user c (other_type name) = do emit unhandled_target_type; pure minus_one

  abbrev pub await_close : Settled (Unit {0}) → Failure → Handling ConnectResult
  await_close (resolved done) err = throw err
  await_close (rejected failure) err = throw failure

  -- The `try` block after the connection is created, and the `catch` block that closes it.
  unfoldable pub with_connection : Option String → UniversalConnection → Handling ConnectResult
  with_connection target_user c =
      or_else
        (emit (connection_tracked c.target_type) >> connect_by_type target_user c c.target_type)
        (λ err. emit (connection_closed c.connection_id) >> await_close s.close err)

  -- A connection that could not be created is not closed.
  abbrev pub when_created : Option String → Settled UniversalConnection → Handling ConnectResult
  when_created target_user (rejected failure) = throw failure
  when_created target_user (resolved c) = with_connection target_user c

  unfoldable pub connection_request : ConnectionRequest
  connection_request = record {
    target_user = target_user_of s.parsed_user s.configured_user;
    target_groups = target_groups_of s.target_groups s.default_target_groups;
  }

  unfoldable pub connect_handler : Handling ConnectResult
  connect_handler =
      when_created (target_user_of s.parsed_user s.configured_user) (s.create connection_request)
