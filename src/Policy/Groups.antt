-- ===== src/Policy/Groups.antt =====
-- Groups of a policy: handlers/policy/policy-group/add-group-policy.handler.ts and
-- handlers/policy/policy-group/delete-group-policy-handler.ts.
pub mod Laws
use zli.Prelude.{
  String, string_key, ◌==◌, Bool, not, Option, none, some, List, [], ◌∷◌, ◌++◌, any, find, filter,
  if◌then◌else◌,
}
use zli.Effect.{Run, pure, ◌>>=◌, ◌>>◌}
use zli.Policy.Types.{Group, AnyPolicy, groups_of, with_groups}
use zli.Policy.Service.{
  Backend, Event, GroupSummary, unable_to_find_group, exists_already, added_to, no_such_member,
  deleted_from, await, fail, finish, defined, get_policy_from_name, edit_policy,
}

-- `for (const group of groups) if (group.name == groupName) groupSummary = group`
unfoldable pub last_named : String → Option GroupSummary → List GroupSummary → Option GroupSummary
last_named group_name summary [] = summary
last_named group_name summary (g ∷ groups) =
    last_named group_name (if g.name == group_name then some g else summary) groups

-- `if (groupSummary == undefined) { logger.error(...); await cleanExit(1, logger) }`
abbrev pub group_or_exit : Option GroupSummary → String → Run Event GroupSummary
group_or_exit none group_name = fail (unable_to_find_group group_name)
group_or_exit (some summary) group_name = pure summary

abbrev pub has_group : String → AnyPolicy → Bool
has_group name policy = any (λ (g : Group). g.name == name) (groups_of policy)

abbrev pub group_to_add : GroupSummary → Group
group_to_add summary = record { id = summary.idp_group_id; name = summary.name }

module _ (b : Backend) where
  unfoldable pub add_group_to_policy : String → String → Run Event (Unit {0})
  add_group_to_policy group_name policy_name = do
    groups ← await b.list_groups
    summary ← group_or_exit (last_named group_name none groups) group_name
    found ← get_policy_from_name b policy_name
    policy ← defined found
    if has_group summary.name policy then fail (exists_already summary.name policy_name) else do
      edit_policy b (with_groups (groups_of policy ++ group_to_add summary ∷ []) policy)
      finish (added_to group_name policy_name)

  unfoldable pub delete_group_from_policy : String → String → Run Event (Unit {0})
  delete_group_from_policy group_name policy_name = do
    groups ← await b.list_groups
    summary ← group_or_exit (find (λ g. g.name == group_name) groups) group_name
    found ← get_policy_from_name b policy_name
    policy ← defined found
    if not (has_group summary.name policy) then fail (no_such_member group_name policy_name) else do
      edit_policy b
          (with_groups (filter (λ g. not (g.name == summary.name)) (groups_of policy)) policy)
      finish (deleted_from group_name policy_name)
