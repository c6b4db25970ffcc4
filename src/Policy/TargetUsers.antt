-- ===== src/Policy/TargetUsers.antt =====
-- Target users of a policy: handlers/policy/policy-targetuser/{add,delete}-targetuser-policy.handler.ts
-- and list-targetusers.handler.ts.
pub mod Laws
use zli.Prelude.{
  String, string_key, ◌==◌, Bool, true, false, not, Option, none, some, List, [], ◌∷◌, ◌++◌, any,
  find, filter, if◌then◌else◌,
}
use zli.Effect.{Run, pure, emit, clean_exit, ◌>>=◌, ◌>>◌}
use zli.Policy.Types.{
  Policy, KubernetesDetails, TargetConnectDetails, ProxyDetails, kubernetes, target_connect, proxy,
}
use zli.Policy.Service.{
  Backend, Event, logged_info, printed_json, printed_table, unable_to_find_policy, exists_already,
  added_to, no_such_member, deleted_from, adding_not_supported, deleting_not_supported,
  no_available_members, await, fail, finish, edit_policy,
}

-- The three results of `find` on the lists of policies.
pub data Candidates : Type 0 where
  found :
      (kube_policy : Option (Policy KubernetesDetails))
      (target_policy : Option (Policy TargetConnectDetails))
      (proxy_policy : Option (Policy ProxyDetails))
      → Candidates

-- `find(p => p.name == policyName)`
abbrev pub named {ℓ} : {D : Type ℓ} → String → List (Policy D) → Option (Policy D)
named policy_name = find (λ p. p.name == policy_name)

abbrev pub has : String → List String → Bool
has user = any (λ u. u == user)

abbrev pub without : String → List String → List String
without user = filter (λ u. not (u == user))

abbrev pub with_cluster_users : List String → Policy KubernetesDetails → Policy KubernetesDetails
with_cluster_users users p = record p { details = record p.details { cluster_users = users } }

abbrev pub with_target_users :
    List String → Policy TargetConnectDetails → Policy TargetConnectDetails
with_target_users users p = record p { details = record p.details { target_users = users } }

abbrev pub with_proxy_users : List String → Policy ProxyDetails → Policy ProxyDetails
with_proxy_users users p = record p { details = record p.details { target_users = users } }

-- `if (!kubePolicy && !targetPolicy && !proxyPolicy)`
abbrev pub none_found : Candidates → Bool
none_found (found none none none) = true
none_found _ = false

unfoldable pub users_of_first : Candidates → List String
users_of_first (found (some p) q r) = p.details.cluster_users
users_of_first (found none (some p) r) = p.details.target_users
users_of_first (found none none (some p)) = p.details.target_users
users_of_first (found none none none) = []

-- `json` is the option `argv.json`.
unfoldable pub print_members : Bool → List String → Run Event (Unit {0})
print_members true members = do emit (printed_json members); clean_exit 0
print_members false [] = finish no_available_members
print_members false (m ∷ members) = do emit (printed_table (m ∷ members)); clean_exit 0

module _ (b : Backend) where
  unfoldable pub candidates : String → Run Event Candidates
  candidates policy_name = do
    kube_policies ← await b.list_kubernetes
    target_policies ← await b.list_target_connect
    proxy_policies ← await b.list_proxy
    pure (
        found (named policy_name kube_policies) (named policy_name target_policies)
          (named policy_name proxy_policies))

  -- The `if` chain of the handler that adds a target user, by the policy found first.
  unfoldable pub add_to_first : Candidates → String → String → Run Event (Unit {0})
  add_to_first (found (some p) q r) user policy_name =
      if has user p.details.cluster_users
      then fail (exists_already user policy_name)
      else edit_policy b (kubernetes (with_cluster_users (p.details.cluster_users ++ user ∷ []) p))
  add_to_first (found none (some p) r) user policy_name =
      if has user p.details.target_users
      then fail (exists_already user policy_name)
      else edit_policy b
          (target_connect (with_target_users (p.details.target_users ++ user ∷ []) p))
  add_to_first (found none none (some p)) user policy_name =
      if has user p.details.target_users
      then fail (exists_already user policy_name)
      else edit_policy b (proxy (with_proxy_users (p.details.target_users ++ user ∷ []) p))
  add_to_first (found none none none) user policy_name = fail (adding_not_supported policy_name)

  unfoldable pub add_target_user_to_policy : String → String → Run Event (Unit {0})
  add_target_user_to_policy user policy_name = do
    c ← candidates policy_name
    if none_found c
        then fail (unable_to_find_policy policy_name)
        else do add_to_first c user policy_name; finish (added_to user policy_name)

  unfoldable pub delete_from_first : Candidates → String → String → Run Event (Unit {0})
  delete_from_first (found (some p) q r) user policy_name =
      if not (has user p.details.cluster_users)
      then fail (no_such_member user policy_name)
      else edit_policy b (kubernetes (with_cluster_users (without user p.details.cluster_users) p))
  delete_from_first (found none (some p) r) user policy_name =
      if not (has user p.details.target_users)
      then fail (no_such_member user policy_name)
      else edit_policy b
          (target_connect (with_target_users (without user p.details.target_users) p))
  delete_from_first (found none none (some p)) user policy_name =
      if not (has user p.details.target_users)
      then fail (no_such_member user policy_name)
      else edit_policy b (proxy (with_proxy_users (without user p.details.target_users) p))
  delete_from_first (found none none none) user policy_name =
      fail (deleting_not_supported policy_name)

  unfoldable pub delete_target_user_from_policy : String → String → Run Event (Unit {0})
  delete_target_user_from_policy user policy_name = do
    c ← candidates policy_name
    if none_found c
        then fail (unable_to_find_policy policy_name)
        else do delete_from_first c user policy_name; finish (deleted_from user policy_name)

  unfoldable pub list_target_users : Bool → String → Run Event (Unit {0})
  list_target_users json policy_name = do
    c ← candidates policy_name
    if none_found c
        then fail (unable_to_find_policy policy_name)
        else print_members json (users_of_first c)
