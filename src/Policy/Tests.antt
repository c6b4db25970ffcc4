-- ===== src/Policy/Tests.antt =====
-- The handlers on a small organization.
use zli.Prelude.{string_key, not, All, ◌++◌, true, none, some, List, [], ◌∷◌, ◌≡◌, refl}
use zli.Effect.{◌>>=◌, exited, error, resolved, rejected}
use zli.Policy.Types.{
  user, Subject, Policy, KubernetesDetails, kubernetes, name_of, subjects_of, with_subjects,
  patch_of,
}
use zli.Policy.Service.{
  logged_info, patched, exists_already, added_to, no_such_member, deleted_from, Backend,
  UserSummary, GroupSummary, all_policies, get_policy_from_name,
}
use zli.Policy.Subjects.{
  delete_user_from_policy, add_subject_to_policy, delete_subject_from_policy, add_user_to_policy,
}
use zli.Policy.Subjects.Laws.{EditsSubjects, handlers-EditsSubjects}
use zli.Policy.Subjects.RoundTrip.{delete_user-add_user}
use zli.Policy.TargetUsers.{
  candidates, has, without, add_target_user_to_policy, delete_target_user_from_policy,
  list_target_users,
}
use zli.Policy.TargetUsers.Laws.{edit_or_refuse, list_or_refuse, first_of, target_users_lem}

abbrev alice : Subject
alice = record { id = "u1"; subject_type = user }

abbrev dev : Policy KubernetesDetails
dev = record {
  id = "p1";
  name = "dev";
  description = none;
  subjects = alice ∷ [];
  groups = [];
  details = record {
    environments = none;
    clusters = some ("c1" ∷ []);
    cluster_users = "admin" ∷ [];
    cluster_groups = "system:masters" ∷ [];
  };
}

abbrev bob : UserSummary
bob = record { id = "u2"; email = "bob@example.com" }

abbrev engineers : GroupSummary
engineers = record { idp_group_id = "g1"; name = "eng" }

abbrev engineers_again : GroupSummary
engineers_again = record { idp_group_id = "g2"; name = "eng" }

abbrev with_policies : List (Policy KubernetesDetails) → Backend
with_policies ps = record {
  list_kubernetes = resolved ps;
  list_target_connect = resolved [];
  list_proxy = resolved [];
  list_just_in_time = resolved [];
  list_session_recording = resolved [];
  get_user_by_email = λ _. resolved bob;
  get_subject_by_email = λ _. rejected (error "no such subject");
  list_groups = resolved (engineers ∷ engineers_again ∷ []);
  answer_patch = λ _. resolved tt;
}

abbrev backend : Backend
backend = with_policies (dev ∷ [])

abbrev dev_with_bob : Policy KubernetesDetails
dev_with_bob = record dev { subjects = alice ∷ record { id = "u2"; subject_type = user } ∷ [] }

-- The requests of the four handlers for bob and the policy `dev`.
handlers-EditsSubjects_example :
    All (EditsSubjects backend "dev") (add_user_to_policy backend "bob@example.com" "dev").0
    × All (EditsSubjects backend "dev") (delete_user_from_policy backend "bob@example.com" "dev").0
    × All (EditsSubjects backend "dev") (add_subject_to_policy backend "bob@example.com" "dev").0
    × All
        (EditsSubjects backend "dev")
        (delete_subject_from_policy backend "bob@example.com" "dev").0
handlers-EditsSubjects_example = handlers-EditsSubjects backend "bob@example.com" "dev"

delete_user-add_user_example :
    (add_user_to_policy backend "bob@example.com" "dev" ≡ (
      patched (patch_of (kubernetes dev_with_bob))
          ∷ logged_info (added_to "bob@example.com" "dev")
          ∷ [],
      exited 0,
    ))
    × (delete_user_from_policy (with_policies (dev_with_bob ∷ [])) "bob@example.com" "dev" ≡ (
      patched (patch_of (kubernetes dev)) ∷ logged_info (deleted_from "bob@example.com" "dev") ∷ [],
      exited 0,
    ))
unfolding get_policy_from_name all_policies name_of subjects_of with_subjects
delete_user-add_user_example =
    delete_user-add_user backend (with_policies (dev_with_bob ∷ [])) "bob@example.com" "dev" bob
      (kubernetes dev) refl refl refl refl refl refl refl

target_users_lem_example :
    (add_target_user_to_policy backend "root" "dev" ≡ (
      candidates backend "dev" >>= λ c.
      edit_or_refuse backend "dev"
        (has "root")
        (λ us. us ++ "root" ∷ [])
        (exists_already "root" "dev")
        (added_to "root" "dev")
        (first_of c)))
    × (delete_target_user_from_policy backend "root" "dev" ≡ (
        candidates backend "dev" >>= λ c.
        edit_or_refuse backend "dev"
          (λ us. not (has "root" us))
          (without "root")
          (no_such_member "root" "dev")
          (deleted_from "root" "dev")
          (first_of c)))
    × (list_target_users backend true "dev"
        ≡ (candidates backend "dev" >>= λ c. list_or_refuse backend "dev" true (first_of c)))
target_users_lem_example = target_users_lem backend "dev" "root" true
