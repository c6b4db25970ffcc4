-- ===== src/Policy/Identifiers.antt =====
-- utils/policy-utils.ts: the resources and targets that the names and ids of a command stand for.
pub mod Laws
pub mod Checks
mod Tests
use zli.Prelude.{
  ℕ, String, string_key, ◌==◌, ◌<◌, ltb, Bool, true, false, Option, none, some, List, [], ◌∷◌, ◌++◌,
  map, length, if◌then◌else◌,
}
use zli.Dict.Defs.{Dict, get, set}
use zli.Effect.{Run, pure, emit, clean_exit, Settled, resolved, rejected, throw, ◌>>=◌, ◌>>◌}
use zli.Policy.Types.{SubjectType, user, Subject, Group, PolicyTarget}
use zli.Policy.Service.{UserSummary, SubjectSummary, GroupSummary}

-- The error messages; `kind` is the word for the kind of resource.
pub data IdentifierError : Type 0 where
  unable_to_find unable_to_find_target multiple_targets : (kind name : String) → IdentifierError

-- `logger.error(message); await cleanExit(1, logger)`
abbrev pub fail_with {ℓ} : {A : Type ℓ} → IdentifierError → Run IdentifierError A
fail_with message = do emit message; clean_exit 1

module _ {ℓ} {T : Type ℓ} (to_resource_key : T → String) where
  -- `allResources.forEach(summary => allResourcesMap[toResourceKey(summary)] = summary)`
  unfoldable pub resources_map : Dict String T → List T → Dict String T
  resources_map m [] = m
  resources_map m (summary ∷ rest) = resources_map (set (to_resource_key summary) summary m) rest

  -- The loop over the names, with the resources that it has collected.
  unfoldable pub parse_names :
      String → Dict String T → List T → List String → Run IdentifierError (List T)
  parse_names kind m resources [] = pure resources
  parse_names kind m resources (name ∷ names) = elim (get name m) [
    | none ↦ fail_with (unable_to_find kind name)
    | some r ↦ parse_names kind m (resources ++ r ∷ []) names
  ]

  unfoldable pub parse_unique_resource :
      List String → List T → String → Run IdentifierError (List T)
  parse_unique_resource resource_names all_resources kind =
      parse_names kind (resources_map [] all_resources) [] resource_names

-- `await` of a list that the backend answers with
abbrev pub awaited {ℓ} : {A : Type ℓ} → Settled A → Run IdentifierError A
awaited (resolved a) = pure a
awaited (rejected failure) = throw failure

unfoldable pub get_users_by_email :
    List String → Settled (List UserSummary) → Run IdentifierError (List Subject)
get_users_by_email emails listed = do
  all_users ← awaited listed
  summaries ← parse_unique_resource (λ (u : UserSummary). u.email) emails all_users "user"
  pure (map (λ (u : UserSummary). record { id = u.id; subject_type = user }) summaries)

unfoldable pub get_subjects_by_email :
    List String → Settled (List SubjectSummary) → Run IdentifierError (List Subject)
get_subjects_by_email emails listed = do
  all_subjects ← awaited listed
  summaries ← parse_unique_resource (λ (s : SubjectSummary). s.email) emails all_subjects "subject"
  pure (map (λ (s : SubjectSummary). record { id = s.id; subject_type = s.subject_type }) summaries)

unfoldable pub get_groups_by_name :
    List String → Settled (List GroupSummary) → Run IdentifierError (List Group)
get_groups_by_name group_names listed = do
  all_groups ← awaited listed
  summaries ← parse_unique_resource (λ (g : GroupSummary). g.name) group_names all_groups "group"
  pure (map (λ (g : GroupSummary). record { id = g.idp_group_id; name = g.name }) summaries)

pub record EnvironmentSummary : Type 0 where
  pub id : String
  pub name : String

-- The environments of the policy, which have an id only.
unfoldable pub get_environment_by_name :
    List String → Settled (List EnvironmentSummary) → Run IdentifierError (List String)
get_environment_by_name environment_names listed = do
  all_environments ← awaited listed
  summaries ←
      parse_unique_resource (λ (e : EnvironmentSummary). e.name) environment_names all_environments
        "environment"
  pure (map (λ (e : EnvironmentSummary). e.id) summaries)

pub record TargetSummary : Type 0 where
  pub id : String
  pub name : String
  pub target_type : String

-- `{ id: t.id, type: t.type }`
abbrev pub target_ref : TargetSummary → PolicyTarget
target_ref t = record { id = t.id; target_type = t.target_type }

-- The targets under an identifier, with one more.
abbrev pub pushed : Option (List PolicyTarget) → PolicyTarget → List PolicyTarget
pushed none t = t ∷ []
pushed (some targets) t = targets ++ t ∷ []

abbrev pub IdentifierMap : Type 0
IdentifierMap = Dict String (List PolicyTarget)

unfoldable pub add_target : TargetSummary → IdentifierMap → IdentifierMap
add_target t m = set t.id (target_ref t ∷ []) (set t.name (pushed (get t.name m) (target_ref t)) m)

unfoldable pub map_targets_from : IdentifierMap → List TargetSummary → IdentifierMap
map_targets_from m [] = m
map_targets_from m (t ∷ targets) = map_targets_from (add_target t m) targets

unfoldable pub map_targets_by_name_or_id : List TargetSummary → IdentifierMap
map_targets_by_name_or_id all_targets = map_targets_from [] all_targets

module _ (error_target_type : String) (m : IdentifierMap) where
  unfoldable pub check_all_identifiers_exist : List String → Run IdentifierError (Unit {0})
  check_all_identifiers_exist [] = pure tt
  check_all_identifiers_exist (identifier ∷ rest) = elim (get identifier m) [
    | none ↦ fail_with (unable_to_find_target error_target_type identifier)
    | some targets ↦ check_all_identifiers_exist rest
  ]

  -- `targetsIdentifierMap[targetIdentifier]?.length > 1` does not hold of a missing identifier.
  unfoldable pub check_all_identifiers_are_single : List String → Run IdentifierError (Unit {0})
  check_all_identifiers_are_single [] = pure tt
  check_all_identifiers_are_single (identifier ∷ rest) = elim (get identifier m) [
    | none ↦ check_all_identifiers_are_single rest
    | some targets ↦
        if ltb 1 (length targets)
        then fail_with (multiple_targets error_target_type identifier)
        else check_all_identifiers_are_single rest
  ]
