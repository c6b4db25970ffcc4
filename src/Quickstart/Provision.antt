-- ===== src/Quickstart/Provision.antt =====
-- createEnvForUniqueUsernames and createPolicyForUniqueUsernames of
-- services/quickstart/quickstart.service.ts.
pub mod Laws
use zli.Prelude.{String, ℕ, string_key, ◌==◌, Option, none, some, List, [], ◌∷◌, ◌++◌, map, find}
use Prim.Native.String.{◌++◌ as text_append}
use zli.Dict.Defs.{Dict}
use zli.Effect.{Failure, type_error, Run, pure, returned, Settled, resolved, rejected, ◌>>=◌}
use zli.Policy.Identifiers.{EnvironmentSummary}
use zli.Quickstart.Types.{ValidSshHostAndConfig, RegistrableSshHost, RegisteredSshHost}
use zli.Quickstart.Grouping.{group_from}

pub record EnvironmentRequest : Type 0 where
  pub name : String
  pub description : String
  pub offline_cleanup_timeout_hours : ℕ

pub data Verb : Type 0 where
  shell tunnel file_transfer : Verb

-- The policy request: one subject of the type user, one environment and one target user, and
-- neither groups nor targets.
pub record PolicyRequest : Type 0 where
  pub name : String
  pub subject_id : String
  pub description : String
  pub environment_id : String
  pub target_user : String
  pub verbs : List Verb

-- The requests that change something, and the errors that are shown, each with the user name of
-- the round it belongs to.
pub data ProvisionEvent : Type 0 where
  create_environment : (username : String) → EnvironmentRequest → ProvisionEvent
  add_policy : (username : String) → PolicyRequest → ProvisionEvent
  environment_failed policy_failed : (username : String) → Failure → ProvisionEvent

-- How the requests settle. The lists are asked for anew in the round of each user name.
pub record ProvisionBackend : Type 0 where
  pub list_environments : String → Settled (List EnvironmentSummary)
  pub create_environment : EnvironmentRequest → Settled String
  pub list_policy_names : String → Settled (List String)
  pub add_policy : PolicyRequest → Settled (Unit {0})
  pub my_id : String

unfoldable pub quickstart_env_name : String → String
quickstart_env_name username = text_append username "-users_quickstart"

unfoldable pub quickstart_policy_name : String → String
quickstart_policy_name username = text_append username "-users-policy_quickstart"

unfoldable pub environment_request : String → String → EnvironmentRequest
environment_request ssh_username env_name = record {
  name = env_name;
  description =
      text_append "Quickstart autogenerated environment for " (text_append ssh_username " users");
  offline_cleanup_timeout_hours = 1;
}

unfoldable pub policy_request : String → String → String → String → PolicyRequest
policy_request my_id ssh_username env_id policy_name = record {
  name = policy_name;
  subject_id = my_id;
  description =
      text_append "Quickstart autogenerated policy for " (text_append ssh_username " users");
  environment_id = env_id;
  target_user = ssh_username;
  verbs = shell ∷ tunnel ∷ file_transfer ∷ [];
}

-- The requests of a `try` block, and how it ends.
abbrev pub Attempt {ℓ} : Type ℓ → Type ℓ
Attempt A = List ProvisionEvent × Settled A

-- `targets[0].targetSummary.environmentId`
abbrev pub first_environment_id : List RegisteredSshHost → Settled String
first_environment_id [] = rejected type_error
first_environment_id (t ∷ targets) = resolved t.target_summary.environment_id

-- The end of a `try` block: its requests, and its result or, from `catch`, the error and nothing.
abbrev pub caught {ℓ κ} :
    {A : Type ℓ} {R : Type κ}
    → (Failure → ProvisionEvent)
    → (A → List R)
    → Attempt A
    → Run ProvisionEvent (List R)
caught show collect (es, resolved a) = (es, returned (collect a))
caught show collect (es, rejected failure) = (es ++ show failure ∷ [], returned [])

module _ (b : ProvisionBackend) where
  abbrev pub environment_among : String → Option EnvironmentSummary → Attempt String
  environment_among username (some env) = ([], resolved env.id)
  environment_among username none =
      let request = environment_request username (quickstart_env_name username) in
      (create_environment username request ∷ [], b.create_environment request)

  abbrev pub environment_in : String → Settled (List EnvironmentSummary) → Attempt String
  environment_in username (rejected failure) = ([], rejected failure)
  environment_in username (resolved envs) =
      environment_among username
        (find (λ (e : EnvironmentSummary). e.name == quickstart_env_name username) envs)

  -- The `try` block of `createEnvForUniqueUsernames`: the id of the environment of a user name.
  unfoldable pub environment_of : String → Attempt String
  environment_of username = environment_in username (b.list_environments username)

  unfoldable pub register_group :
      String → List ValidSshHostAndConfig → Run ProvisionEvent (List RegistrableSshHost)
  register_group username hosts =
      caught (environment_failed username)
        (λ id. map (λ (h : ValidSshHostAndConfig). record { host = h; env_id = id }) hosts)
        (environment_of username)

  abbrev pub add_missing_policy : String → Settled String → Attempt (Unit {0})
  add_missing_policy username (rejected failure) = ([], rejected failure)
  add_missing_policy username (resolved env_id) =
      let request = policy_request b.my_id username env_id (quickstart_policy_name username) in
      (add_policy username request ∷ [], b.add_policy request)

  abbrev pub policy_among : String → List RegisteredSshHost → Option String → Attempt (Unit {0})
  policy_among username targets (some name) = ([], resolved tt)
  policy_among username targets none = add_missing_policy username (first_environment_id targets)

  abbrev pub policy_in :
      String → List RegisteredSshHost → Settled (List String) → Attempt (Unit {0})
  policy_in username targets (rejected failure) = ([], rejected failure)
  policy_in username targets (resolved names) =
      policy_among username targets (find (λ name. name == quickstart_policy_name username) names)

  -- The `try` block of `createPolicyForUniqueUsernames`.
  unfoldable pub policy_of : String → List RegisteredSshHost → Attempt (Unit {0})
  policy_of username targets = policy_in username targets (b.list_policy_names username)

  unfoldable pub connect_group :
      String → List RegisteredSshHost → Run ProvisionEvent (List RegisteredSshHost)
  connect_group username targets =
      caught (policy_failed username) (λ done. targets) (policy_of username targets)

-- `for (const [username, group] of usernameMap)`, with what the rounds push in order.
unfoldable pub for_groups {ℓ κ} :
    {H : Type ℓ} {R : Type κ}
    → (String → List H → Run ProvisionEvent (List R))
    → Dict String (List H)
    → Run ProvisionEvent (List R)
for_groups f [] = pure []
for_groups f ((username, group) ∷ rest) = do
  pushed ← f username group
  later ← for_groups f rest
  pure (pushed ++ later)

module _ (to_lower_case : String → String) where
  abbrev pub host_username : ValidSshHostAndConfig → String
  host_username h = to_lower_case h.ssh_host.username

  abbrev pub target_username : RegisteredSshHost → String
  target_username t = to_lower_case t.ssh_host.username

module _ (to_lower_case : String → String) (b : ProvisionBackend) where
  unfoldable pub create_env_for_unique_usernames :
      List ValidSshHostAndConfig → Run ProvisionEvent (List RegistrableSshHost)
  create_env_for_unique_usernames hosts_to_add =
      for_groups (register_group b) (group_from (host_username to_lower_case) [] hosts_to_add)

  unfoldable pub create_policy_for_unique_usernames :
      List RegisteredSshHost → Run ProvisionEvent (List RegisteredSshHost)
  create_policy_for_unique_usernames registered =
      for_groups (connect_group b) (group_from (target_username to_lower_case) [] registered)
