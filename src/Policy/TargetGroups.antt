-- ===== src/Policy/TargetGroups.antt =====
-- Target groups of a Kubernetes policy: handlers/policy/policy-targetgroup/add-targetgroup-policy.handler.ts,
-- delete-targetgroup-policy.handler.ts and list-targetgroups.handler.ts.
pub mod Laws
use zli.Prelude.{
  String, string_key, ◌==◌, Bool, true, false, not, Option, none, some, List, [], ◌∷◌, ◌++◌, any,
  find, filter, if◌then◌else◌,
}
use zli.Effect.{Run, pure, ◌>>=◌, ◌>>◌}
use zli.Policy.Types.{Policy, KubernetesDetails, kubernetes}
use zli.Policy.Service.{
  Backend, Event, unable_to_find_kubernetes_policy, exists_already, added_to, no_such_member,
  deleted_from, await, fail, finish, edit_policy,
}
use zli.Policy.TargetUsers.{named, has, without, print_members}

abbrev pub with_cluster_groups : List String → Policy KubernetesDetails → Policy KubernetesDetails
with_cluster_groups groups p = record p { details = record p.details { cluster_groups = groups } }

-- `if (!kubePolicy) { logger.error(...); await cleanExit(1, logger) }`
abbrev pub kubernetes_or_exit :
    Option (Policy KubernetesDetails) → String → Run Event (Policy KubernetesDetails)
kubernetes_or_exit none policy_name = fail (unable_to_find_kubernetes_policy policy_name)
kubernetes_or_exit (some p) policy_name = pure p

-- The groups that the handler which lists them collects.
abbrev pub groups_listed : Option (Policy KubernetesDetails) → List String
groups_listed none = []
groups_listed (some p) = p.details.cluster_groups

module _ (b : Backend) where
  unfoldable pub add_target_group_to_policy : String → String → Run Event (Unit {0})
  add_target_group_to_policy group policy_name = do
    kube_policies ← await b.list_kubernetes
    p ← kubernetes_or_exit (named policy_name kube_policies) policy_name
    if has group p.details.cluster_groups then fail (exists_already group policy_name) else do
      edit_policy b (kubernetes (with_cluster_groups (p.details.cluster_groups ++ group ∷ []) p))
      finish (added_to group policy_name)

  unfoldable pub delete_target_group_from_policy : String → String → Run Event (Unit {0})
  delete_target_group_from_policy group policy_name = do
    kube_policies ← await b.list_kubernetes
    p ← kubernetes_or_exit (named policy_name kube_policies) policy_name
    if not (has group p.details.cluster_groups) then fail (no_such_member group policy_name) else do
      edit_policy b (kubernetes (with_cluster_groups (without group p.details.cluster_groups) p))
      finish (deleted_from group policy_name)

  unfoldable pub list_target_groups : Bool → String → Run Event (Unit {0})
  list_target_groups json policy_name = do
    kube_policies ← await b.list_kubernetes
    print_members json (groups_listed (named policy_name kube_policies))
