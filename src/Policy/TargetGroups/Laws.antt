-- ===== src/Policy/TargetGroups/Laws.antt =====
-- Target groups after one is added, and after it is deleted again.
use zli.Prelude.{String, string_key, true, false, some, List, [], ◌∷◌, ◌++◌, ◌≡◌, arith, eq_refl}
use zli.Effect.{exited, resolved}
use zli.Policy.Types.{Policy, KubernetesDetails, kubernetes, patch_of}
use zli.Policy.Service.{
  Backend, logged_info, logged_error, patched, printed_json, exists_already, added_to, deleted_from,
  edit_policy,
}
use zli.Policy.TargetUsers.{named, has, without, print_members}
use zli.Policy.TargetGroups.{
  with_cluster_groups, add_target_group_to_policy, delete_target_group_from_policy,
  list_target_groups,
}

pub without-append :
    (x : String) (xs : List String) → has x xs ≡ false → without x (xs ++ x ∷ []) ≡ xs
without-append x [] h = ground (arith, eq_refl x)
without-append x (y ∷ ys) h = ground (arith, without-append x ys)

pub has-append : (x : String) (xs : List String) → has x (xs ++ x ∷ []) ≡ true
has-append x [] = ground (arith, eq_refl x)
has-append x (y ∷ ys) = ground (arith, has-append x ys)

-- The policy with the group at the end of its cluster groups.
abbrev with_group : String → Policy KubernetesDetails → Policy KubernetesDetails
with_group group p = with_cluster_groups (p.details.cluster_groups ++ group ∷ []) p

module _ (b later : Backend) (group name : String) where
  -- Adding a group that the policy lacks sends the policy with the group at its end; with the policy
  -- stored so, listing prints the groups with it, adding it again is refused, and deleting it
  -- sends the policy as it was.
  pub target_groups_lem :
      (p : Policy KubernetesDetails) (before after : List (Policy KubernetesDetails))
      → b.list_kubernetes ≡ resolved before
      → named name before ≡ some p
      → has group p.details.cluster_groups ≡ false
      → b.answer_patch (patch_of (kubernetes (with_group group p))) ≡ resolved tt
      → later.list_kubernetes ≡ resolved after
      → named name after ≡ some (with_group group p)
      → later.answer_patch (patch_of (kubernetes p)) ≡ resolved tt
      → (add_target_group_to_policy b group name ≡ (
        patched (patch_of (kubernetes (with_group group p)))
            ∷ logged_info (added_to group name)
            ∷ [],
        exited 0,
      ))
        × (list_target_groups later true name
            ≡ (printed_json (p.details.cluster_groups ++ group ∷ []) ∷ [], exited 0))
        × (add_target_group_to_policy later group name
            ≡ (logged_error (exists_already group name) ∷ [], exited 1))
        × (delete_target_group_from_policy later group name ≡ (
          patched (patch_of (kubernetes p)) ∷ logged_info (deleted_from group name) ∷ [],
          exited 0,
        ))
  unfolding add_target_group_to_policy list_target_groups delete_target_group_from_policy
      edit_policy print_members
  target_groups_lem p before after lists found absent accepted later_lists later_found
        accepted_later =
      (
        rw (lists, found, absent, accepted),
        rw (later_lists, later_found),
        rw (later_lists, later_found, has-append group p.details.cluster_groups),
        rw (
          later_lists,
          later_found,
          has-append group p.details.cluster_groups,
          without-append group p.details.cluster_groups absent,
          accepted_later,
        ),
      )
