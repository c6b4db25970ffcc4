-- ===== src/Quickstart/Register.antt =====
-- pollBzeroTargetOnline, runAutodiscoveryOnSSHHost and addSSHHostToBastionZero of
-- services/quickstart/quickstart.service.ts.
pub mod Laws
use zli.Prelude.{
  String, ℕ, nat_key, string_key, ◌==◌, Bool, true, false, not, Option, none, some, List, [], ◌∷◌,
  ◌++◌, find, filter, if◌then◌else◌,
}
use Prim.Native.String.{◌++◌ as text_append}
use zli.Dict.Defs.{Dict, get, set}
use zli.Effect.{Failure, error, Settled, resolved, rejected}
use zli.Quickstart.Hosts.{is_present, ValidSshHost}
use zli.Quickstart.Types.{BzeroAgentSummary, RegistrableSshHost, RegisteredSshHost}

-- How the requests of one attempt to poll settle.
pub record PollAnswer : Type 0 where
  pub listed : Settled (List BzeroAgentSummary)
  pub agent : String → Settled BzeroAgentSummary

-- `targetsToExclude.reduce((map, target) => ({...map, [target.id]: target}), {})`
unfoldable pub excluded_map :
    Dict String BzeroAgentSummary → List BzeroAgentSummary → Dict String BzeroAgentSummary
excluded_map m [] = m
excluded_map m (t ∷ targets) = excluded_map (set t.id t m) targets

unfoldable pub check_target : BzeroAgentSummary → Settled BzeroAgentSummary
check_target t =
    if t.is_online
    then resolved t
    else rejected (error (text_append "Target " (text_append t.name " is not online.")))

abbrev pub checked : Settled BzeroAgentSummary → Settled BzeroAgentSummary
checked (resolved t) = check_target t
checked (rejected failure) = rejected failure

-- `!targetId` holds of a missing and of an empty id.
abbrev pub known_id : Option String → Option String
known_id none = none
known_id (some id) = if id == "" then none else some id

-- The variable `targetId` after an attempt, and how the attempt settles.
abbrev pub Attempted : Type 0
Attempted = Option String × Settled BzeroAgentSummary

module _ (target_name : String) (excluded : Dict String BzeroAgentSummary) where
  abbrev pub is_candidate : BzeroAgentSummary → Bool
  is_candidate t = not (is_present (get t.id excluded))

  abbrev pub found_or_not : Option String → Option BzeroAgentSummary → Attempted
  found_or_not target_id (some t) = (some t.id, check_target t)
  found_or_not target_id none = (
    target_id,
    rejected (error (text_append "No target named " (text_append target_name " was found."))),
  )

  abbrev pub search_listed : Option String → Settled (List BzeroAgentSummary) → Attempted
  search_listed target_id (rejected failure) = (target_id, rejected failure)
  search_listed target_id (resolved targets) =
      found_or_not target_id
        (find (λ (t : BzeroAgentSummary). t.name == target_name) (filter is_candidate targets))

  abbrev pub attempt_with : Option String → Option String → PollAnswer → Attempted
  attempt_with target_id none answer = search_listed target_id answer.listed
  attempt_with target_id (some id) answer = (target_id, checked (answer.agent id))

  -- What the retrier calls for each attempt.
  unfoldable pub poll_target : Option String → PollAnswer → Attempted
  poll_target target_id answer = attempt_with target_id (known_id target_id) answer

  -- How a series of attempts settles, one by one.
  unfoldable pub poll_attempts : Option String → List PollAnswer → List (Settled BzeroAgentSummary)
  poll_attempts target_id [] = []
  poll_attempts target_id (answer ∷ answers) =
      let (next_id, settled) = poll_target target_id answer in
      settled ∷ poll_attempts next_id answers

-- How the calls of the package ssh2-promise and the request of the script settle, for one host: the
-- connection, `bzero --version`, the script, the exit code of its run, `hostname` less the white
-- space around it, and the closing of the connection.
pub record RemoteHost : Type 0 where
  pub connected : Settled (Unit {0})
  pub agent_version : Settled (Unit {0})
  pub script : Settled String
  pub script_exit : Settled ℕ
  pub trimmed_hostname : Settled String
  pub closed : Settled (Unit {0})

pub data RemoteEvent : Type 0 where
  script_run : RemoteEvent
  connection_closed : RemoteEvent

-- How the promise of the target name settles. It stays open when asking for the host name fails, for
-- that happens in a handler whose own promise is not looked at.
pub data Discovery : Type 0 where
  discovered : (target_name : String) → Discovery
  already_installed : Discovery
  discovery_failed : Failure → Discovery
  stays_open : Discovery

abbrev pub named_target : Settled String → Discovery
named_target (rejected failure) = stays_open
named_target (resolved name) =
    if name == "" then discovery_failed (error "Failed to find target name.") else discovered name

-- The handler of `close` on the socket of the script.
abbrev pub script_closed : Settled ℕ → Settled String → Discovery
script_closed (rejected failure) hostname =
    discovery_failed (error "Error when attempting to execute autodiscovery script")
script_closed (resolved code) hostname =
    if code == 0
    then named_target hostname
    else discovery_failed (error "Failed to execute autodiscovery script")

-- `finally { await conn.close(); }`, which does not come to run while the block stays open.
abbrev pub after_close : Settled (Unit {0}) → Discovery → Discovery
after_close (resolved done) d = d
after_close (rejected failure) d = discovery_failed failure

abbrev pub finally_closed :
    Settled (Unit {0}) → (List RemoteEvent × Discovery) → List RemoteEvent × Discovery
finally_closed closed (es, stays_open) = (es, stays_open)
finally_closed closed (es, d) = (es ++ connection_closed ∷ [], after_close closed d)

module _ (r : RemoteHost) where
  abbrev pub with_script : Settled String → List RemoteEvent × Discovery
  with_script (rejected failure) = ([], discovery_failed failure)
  with_script (resolved script) = (script_run ∷ [], script_closed r.script_exit r.trimmed_hostname)

  -- `isAgentAlreadyInstalled`: the command succeeds.
  abbrev pub unless_installed : Settled (Unit {0}) → List RemoteEvent × Discovery
  unless_installed (resolved done) = ([], already_installed)
  unless_installed (rejected failure) = with_script r.script

  abbrev pub once_connected : Settled (Unit {0}) → List RemoteEvent × Discovery
  once_connected (rejected failure) =
      ([], discovery_failed (error "Failed to establish SSH connection"))
  once_connected (resolved done) = finally_closed r.closed (unless_installed r.agent_version)

  unfoldable pub run_autodiscovery_on_ssh_host : List RemoteEvent × Discovery
  run_autodiscovery_on_ssh_host = once_connected r.connected

-- What `addSSHHostToBastionZero` tells of a host.
pub data HostReport : Type 0 where
  added already_there failed_to_add : (host_name : String) → HostReport

-- How the promise of `addSSHHostToBastionZero` settles, when it does, with what is told.
pub data Registration : Type 0 where
  registered : RegisteredSshHost → HostReport → Registration
  not_registered : HostReport → Registration
  never_settles : Registration

abbrev pub registered_as : ValidSshHost → Settled BzeroAgentSummary → Registration
registered_as host (resolved target) =
    registered (record { target_summary = target; ssh_host = host }) (added host.name)
registered_as host (rejected failure) = not_registered (failed_to_add host.name)

-- `polled` is how the poll for a name settles.
abbrev pub after_discovery :
    ValidSshHost → (String → Settled BzeroAgentSummary) → Discovery → Registration
after_discovery host polled (discovered target_name) = registered_as host (polled target_name)
after_discovery host polled already_installed = not_registered (already_there host.name)
after_discovery host polled (discovery_failed failure) = not_registered (failed_to_add host.name)
after_discovery host polled stays_open = never_settles

-- `preexisting` are the targets that are listed before the host is registered; the poll leaves them
-- out.
unfoldable pub add_ssh_host_to_bastion_zero :
    RegistrableSshHost
    → Settled (List BzeroAgentSummary)
    → (List BzeroAgentSummary → String → Settled BzeroAgentSummary)
    → RemoteHost
    → Registration
add_ssh_host_to_bastion_zero host (rejected failure) polled remote =
    not_registered (failed_to_add host.host.ssh_host.name)
add_ssh_host_to_bastion_zero host (resolved preexisting) polled remote =
    after_discovery host.host.ssh_host (polled preexisting) (run_autodiscovery_on_ssh_host remote).1
