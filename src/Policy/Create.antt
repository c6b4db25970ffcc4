-- ===== src/Policy/Create.antt =====
-- handlers/policy/policy-create: the handlers that create a policy of each kind, and
-- `getTargetsByNameOrId` of utils/policy-utils.ts. `cleanExit` flushes the logs before it leaves the
-- process. The handlers call the two checks on the identifiers without `await`, so they go on while
-- the exit that a failed check has begun is still pending.
pub mod Handlers
pub mod Laws
pub mod Ends
pub mod Single
pub mod Ambiguous
mod Tests
use zli.Prelude.{
  String, string_key, ◌==◌, Bool, true, false, not, ◌||◌, ◌&&◌, Option, none, some, List, [], ◌∷◌,
  ◌++◌, map, any, filter, if◌then◌else◌,
}
use zli.Dict.Defs.{Dict, get}
use zli.Effect.{
  type_error, Outcome, returned, exited, threw, Run, pure, throw, emit, clean_exit, ◌>>=◌, ◌>>◌,
  Settled, resolved, rejected,
}
use zli.Display.{DisplayedVerb, rdp, sql_server, verb_type_display, parse_verb_type}
use zli.Lists.Targets.{
  TargetKind, linux, windows, dynamic_access_config, kubernetes, db, web, kind_key, ListBackend,
  list_targets_per_type, concatenated,
}
use zli.Policy.Types.{
  Subject, Group, PolicyTarget, KubernetesDetails, ProxyDetails, SessionRecordingDetails,
}
use zli.Policy.Service.{SubjectSummary, GroupSummary}
use zli.Policy.Identifiers.{
  IdentifierError, EnvironmentSummary, TargetSummary, IdentifierMap, get_subjects_by_email,
  get_groups_by_name, get_environment_by_name, map_targets_by_name_or_id,
  check_all_identifiers_exist, check_all_identifiers_are_single,
}

-- What the requests have in common, beside the details of the kind.
pub record NewPolicy (D : Type 0) : Type 0 where
  pub name : String
  pub subjects : List Subject
  pub groups : List Group
  pub description : Option String
  pub details : D

-- As `TargetConnectDetails`, with the verbs that the texts stand for.
pub record NewTargetConnect : Type 0 where
  pub environments : Option (List String)
  pub targets : List PolicyTarget
  pub target_users : List String
  pub verbs : List (Option DisplayedVerb)

-- The constructor is the route of the request.
pub data CreateRequest : Type 0 where
  add_kubernetes_policy : NewPolicy KubernetesDetails → CreateRequest
  add_target_connect_policy : NewPolicy NewTargetConnect → CreateRequest
  add_proxy_policy : NewPolicy ProxyDetails → CreateRequest
  add_session_recording_policy : NewPolicy SessionRecordingDetails → CreateRequest

pub data CreateError : Type 0 where
  neither_given must_provide_target_user : CreateError
  identifier_error : IdentifierError → CreateError

pub data CreateEvent : Type 0 where
  logged_error : CreateError → CreateEvent
  warned_deprecated : CreateEvent
  requested : CreateRequest → CreateEvent
  warned_created : (name id : String) → CreateEvent

-- The name and the id of the policy that the backend has created.
pub record Created : Type 0 where
  pub name : String
  pub id : String

-- How the requests settle. `version_ok` says of the version of an agent that it is no version or is
-- at least 0.0.0, by the package semver. The last three say when the exit that a failed check has
-- begun ends the process, if none of them before the handler ends.
pub record Settings : Type 0 where
  pub to_lower_case : String → String
  pub subjects : Settled (List SubjectSummary)
  pub groups : Settled (List GroupSummary)
  pub environments : Settled (List EnvironmentSummary)
  pub lists : ListBackend
  pub version_ok : String → Bool
  pub create : CreateRequest → Settled Created
  pub exits_before_request : Bool
  pub exits_before_answer : Bool
  pub exits_before_end : Bool

-- The options of every command that creates a policy.
pub record BaseArgs : Type 0 where
  pub name : String
  pub users : Option (List String)
  pub subjects : Option (List String)
  pub groups : Option (List String)
  pub description : Option String

abbrev pub Creating : Type 0 → Type 0
Creating A = Run CreateEvent A

-- `logger.error(message); await cleanExit(1, logger)`
abbrev pub fail : {A : Type 0} → CreateError → Creating A
fail message = do emit (logged_error message); clean_exit 1

abbrev pub await : {A : Type 0} → Settled A → Creating A
await (resolved a) = pure a
await (rejected failure) = throw failure

abbrev pub logged : List IdentifierError → List CreateEvent
logged = map (λ e. logged_error (identifier_error e))

-- `await` of a search for resources
abbrev pub awaited {ℓ} : {A : Type ℓ} → Run IdentifierError A → Run CreateEvent A
awaited (es, r) = (logged es, r)

-- Whether an exit has begun.
abbrev pub exits {ℓ} : {A : Type ℓ} → Outcome A → Bool
exits (returned a) = false
exits (exited code) = true
exits (threw failure) = false

-- A call of a check without `await`: whether the exit that it begins is pending.
abbrev pub begun : Run IdentifierError (Unit {0}) → Creating Bool
begun (es, r) = (logged es, returned (exits r))

abbrev pub or_empty : {A : Type 0} → Option (List A) → List A
or_empty none = []
or_empty (some l) = l

-- `for (… of undefined)` throws.
abbrev pub search :
    {A B : Type 0}
    → (List String → Settled (List A) → Run IdentifierError (List B))
    → Option (List String)
    → Settled (List A)
    → Creating (List B)
search find none listed = do all ← await listed; throw type_error
search find (some names) listed = awaited (find names listed)

-- `targetIdentifierMap[target][0]` and a field of it
abbrev pub first_target : Option (List PolicyTarget) → Creating PolicyTarget
first_target none = throw type_error
first_target (some []) = throw type_error
first_target (some (t ∷ targets)) = pure t

unfoldable pub first_targets : IdentifierMap → List String → Creating (List PolicyTarget)
first_targets m [] = pure []
first_targets m (identifier ∷ rest) = do
  t ← first_target (get identifier m)
  targets ← first_targets m rest
  pure (t ∷ targets)

-- The two checks and the targets under the identifiers, with whether an exit is pending.
unfoldable pub chosen_targets :
    String → IdentifierMap → List String → Creating (Bool × List PolicyTarget)
chosen_targets kind m identifiers = do
  missing ← begun (check_all_identifiers_exist kind m identifiers)
  ambiguous ← begun (check_all_identifiers_are_single kind m identifiers)
  targets ← first_targets m identifiers
  pure (missing || ambiguous, targets)

-- The targets of the wanted kinds that `targetsPerType` has, in the order of the kinds.
unfoldable pub of_kinds {ℓ} : {T : Type ℓ} → List TargetKind → Dict String (List T) → List T
of_kinds [] per_type = []
of_kinds (kind ∷ kinds) per_type = elim (get (kind_key kind) per_type) [
  | none ↦ of_kinds kinds per_type
  | some targets ↦ targets ++ of_kinds kinds per_type
]

abbrev pub summary_of : zli.Lists.Targets.TargetSummary → TargetSummary
summary_of t = record { id = t.id; name = t.name; target_type = kind_key t.target_kind }

-- `if (argv.x === undefined && argv.environments === undefined)`
abbrev pub demand_either : (one other : Option (List String)) → Creating (Unit {0})
demand_either none none = fail neither_given
demand_either none (some names) = pure tt
demand_either (some names) other = pure tt

-- The deprecated option `users` stands for `subjects`.
abbrev pub subject_emails :
    (users subjects : Option (List String)) → Creating (Option (List String))
subject_emails none subjects = pure subjects
subject_emails (some users) subjects = do emit warned_deprecated; pure (some users)

-- The process may end here, if an exit is pending.
abbrev pub pending_exit : (pending ends : Bool) → Creating (Unit {0})
pending_exit true true = clean_exit 1
pending_exit true false = pure tt
pending_exit false ends = pure tt

module _ (s : Settings) where
  unfoldable pub get_targets_by_name_or_id : List TargetKind → Settled IdentifierMap
  get_targets_by_name_or_id kinds = elim (list_targets_per_type s.lists kinds none) [
    | resolved per_type ↦ resolved (
        map_targets_by_name_or_id (
          map summary_of (
            filter (λ (t : zli.Lists.Targets.TargetSummary). s.version_ok t.agent_version)
              (of_kinds kinds per_type))))
    | rejected failure ↦ rejected failure
  ]

  abbrev pub chosen_groups : Option (List String) → Creating (List Group)
  chosen_groups none = pure []
  chosen_groups (some names) = awaited (get_groups_by_name names s.groups)

  -- The subjects and the groups of the command.
  unfoldable pub members : BaseArgs → Creating (List Subject × List Group)
  members args = do
    emails ← subject_emails args.users args.subjects
    subjects ← search get_subjects_by_email emails s.subjects
    groups ← chosen_groups args.groups
    pure (subjects, groups)

  -- The targets or else the environments, with whether an exit is pending.
  unfoldable pub scope :
      String
      → List TargetKind
      → (one other : Option (List String))
      → Creating (Bool × (List PolicyTarget × Option (List String)))
  scope kind kinds (some identifiers) other = do
    m ← await (get_targets_by_name_or_id kinds)
    chosen ← chosen_targets kind m identifiers
    pure (chosen.0, (chosen.1, none))
  scope kind kinds none other = do
    environments ← search get_environment_by_name other s.environments
    pure (false, ([], some environments))

  -- The request, the report of the new policy and the end.
  unfoldable pub send : Bool → CreateRequest → Creating (Unit {0})
  send pending request = do
    pending_exit pending s.exits_before_request
    emit (requested request)
    pending_exit pending s.exits_before_answer
    created ← await (s.create request)
    emit (warned_created created.name created.id)
    pending_exit pending s.exits_before_end
    clean_exit 0
