-- ===== src/Lists/Closing.antt =====
-- services/close-connections/close-connections.service.ts and
-- handlers/close-connection/close-connection.handler.ts.
pub mod Laws
use zli.Prelude.{
  String, string_key, Bool, true, false, Option, none, some, List, [], ◌∷◌, ◌++◌, map,
  if◌then◌else◌,
}
use Prim.Native.String.{◌++◌ as text_append}
use zli.Effect.{
  Failure, error, Outcome, returned, exited, threw, Run, pure, throw, emit, clean_exit, Settled,
  resolved, rejected, ◌>>=◌, ◌>>◌,
}
use zli.Shell.{SpaceSummary, get_cli_space}

pub data ConnectionType : Type 0 where
  db rdp sqlserver kube : ConnectionType

pub data ConnectionKind : Type 0 where
  shell : ConnectionKind
  daemon_connection : ConnectionType → ConnectionKind

pub data ClosingEvent : Type 0 where
  close_requested : (connection_id : String) → ClosingEvent
  space_closed : (space_id : String) → ClosingEvent
  space_created : (name : String) → ClosingEvent

-- How the requests settle, and the message of a reason, if it is an error.
pub record ClosingBackend : Type 0 where
  pub list_open_connections : ConnectionType → Settled (List String)
  pub close_connection : String → Settled (Unit {0})
  pub list_spaces : Settled (List SpaceSummary)
  pub close_space : String → Settled (Unit {0})
  pub create_space : String → Settled (Unit {0})
  pub message_of : Failure → Option String

abbrev pub Closing : Type 0 → Type 0
Closing A = Run ClosingEvent A

abbrev pub await : {A : Type 0} → Settled A → Closing A
await (resolved a) = pure a
await (rejected failure) = throw failure

abbrev pub emit_all : List ClosingEvent → Closing (Unit {0})
emit_all es = (es, returned tt)

abbrev pub type_name : ConnectionType → String
type_name db = "db"
type_name rdp = "rdp"
type_name sqlserver = "sqlserver"
type_name kube = "kube"

-- `results.reduce(…)` over the results of `Promise.allSettled`: the reasons of those rejected.
unfoldable pub reasons : List (Settled (Unit {0})) → List Failure
reasons [] = []
reasons (resolved done ∷ results) = reasons results
reasons (rejected failure ∷ results) = failure ∷ reasons results

-- The messages of those reasons that are errors.
abbrev pub with_message : Option String → List String → List String
with_message none messages = messages
with_message (some message) messages = message ∷ messages

unfoldable pub error_messages : (Failure → Option String) → List Failure → List String
error_messages message_of [] = []
error_messages message_of (failure ∷ failures) =
    with_message (message_of failure) (error_messages message_of failures)

-- `messages.join(', ')`
unfoldable pub joined_by_comma : List String → String
joined_by_comma [] = ""
joined_by_comma (m ∷ []) = m
joined_by_comma (m ∷ n ∷ messages) =
    text_append m (text_append ", " (joined_by_comma (n ∷ messages)))

module _ (b : ClosingBackend) where
  abbrev pub unless_failed : String → List Failure → Closing (Unit {0})
  unless_failed prefix [] = pure tt
  unless_failed prefix (f ∷ failures) =
      throw
        (error (text_append prefix (joined_by_comma (error_messages b.message_of (f ∷ failures)))))

  abbrev pub close_space_of : Option SpaceSummary → Closing Bool
  close_space_of none = pure false
  close_space_of (some space) = do
    emit (space_closed space.id)
    await (b.close_space space.id)
    emit (space_created "cli-space")
    await (b.create_space "cli-space")
    pure true

  unfoldable pub close_shell_connections : Closing Bool
  close_shell_connections = do spaces ← await b.list_spaces; close_space_of (get_cli_space spaces).0

  abbrev pub close_listed : String → List String → Closing (Unit {0})
  close_listed prefix ids =
      emit_all (map close_requested ids)
      >> unless_failed prefix (reasons (map b.close_connection ids))

  -- All requests are issued; then the handler throws if one of them failed.
  unfoldable pub close_connections : ConnectionType → Closing (Unit {0})
  close_connections kind = do
    ids ← await (b.list_open_connections kind)
    close_listed
        (text_append "Failed closing at least one " (text_append (type_name kind) " connection: "))
        ids

  abbrev pub unless_missing : Bool → Closing (Unit {0})
  unless_missing true = pure tt
  unless_missing false =
      throw
        (error "There is no cli session. Try creating a new connection to a target using the zli")

  -- `handleShell`
  unfoldable pub handle_shell : Closing (Unit {0})
  handle_shell = do exists ← close_shell_connections; unless_missing exists

  abbrev pub close_kind : ConnectionKind → Closing (Unit {0})
  close_kind shell = handle_shell
  close_kind (daemon_connection kind) = close_connections kind

  abbrev pub all_kinds : List ConnectionKind
  all_kinds =
      shell
      ∷ daemon_connection db
      ∷ daemon_connection rdp
      ∷ daemon_connection sqlserver
      ∷ daemon_connection kube
      ∷ []

  -- How a task that is started settles. No task leaves the process.
  abbrev pub settled : Outcome (Unit {0}) → Settled (Unit {0})
  settled (returned done) = resolved tt
  settled (exited code) = resolved tt
  settled (threw failure) = rejected failure

  -- The events of the tasks, which run at the same time, one task after the other.
  unfoldable pub events_of_kinds : List ConnectionKind → List ClosingEvent
  events_of_kinds [] = []
  events_of_kinds (kind ∷ kinds) = (close_kind kind).0 ++ events_of_kinds kinds

  unfoldable pub close_all_kinds : List ConnectionKind → Closing (Unit {0})
  close_all_kinds kinds =
      emit_all (events_of_kinds kinds)
      >> unless_failed "Failed closing at least one connection: "
          (reasons (map (λ kind. settled (close_kind kind).1) kinds))

  -- The arguments: `--all` with its optional type, or the id of one connection.
  abbrev pub close_requested_by : Option (Option ConnectionKind) → String → Closing (Unit {0})
  close_requested_by (some (some kind)) connection_id = close_kind kind
  close_requested_by (some none) connection_id = close_all_kinds all_kinds
  close_requested_by none connection_id = do
    emit (close_requested connection_id)
    await (b.close_connection connection_id)

  unfoldable pub close_connection_handler :
      Option (Option ConnectionKind) → String → Closing (Unit {0})
  close_connection_handler all connection_id = do close_requested_by all connection_id; clean_exit 0
