-- ===== src/Policy/Groups/Laws.antt =====
-- Adding a group and deleting it again.
use zli.Prelude.{
  String, string_key, ◌==◌, true, false, not, Option, none, some, List, [], ◌∷◌, ◌++◌, ◌≡◌, sym,
  ◌∙◌, arith, eq_iff, any, find, find_sound, filter, if◌then◌else◌,
}
use zli.Effect.{returned, exited, threw, type_error, resolved}
use zli.Policy.Types.{Group, AnyPolicy, groups_of, with_groups, patch_of}
use zli.Policy.Service.{
  Backend, GroupSummary, logged_info, patched, added_to, deleted_from, get_policy_from_name,
  edit_policy,
}
use zli.Policy.Service.Laws.{looked_up}
use zli.Policy.Groups.{
  last_named, has_group, group_to_add, add_group_to_policy, delete_group_from_policy,
}

-- What the loop finds has the name, if what it starts with has it.
last_named_sound :
    (name : String) (before : Option GroupSummary) (groups : List GroupSummary) (g : GroupSummary)
    → ((x : GroupSummary) → before ≡ some x → x.name ≡ name)
    → last_named name before groups ≡ some g
    → g.name ≡ name
unfolding last_named
last_named_sound name before [] g h e = h g e
last_named_sound name before (x ∷ groups) g h e =
    last_named_sound name (if x.name == name then some x else before) groups g
      (λ y k. ground (arith, h y, eq_iff x.name name)) e

groups_of-with_groups : (s : List Group) (p : AnyPolicy) → groups_of (with_groups s p) ≡ s
unfolding groups_of with_groups
groups_of-with_groups s p = ground arith

with_groups_back :
    (s : List Group) (p : AnyPolicy) → with_groups (groups_of p) (with_groups s p) ≡ p
unfolding groups_of with_groups
with_groups_back s p = ground arith

any-name-append :
    (name : String) (gs : List Group) (g : Group)
    → g.name ≡ name
    → any (λ (x : Group). x.name == name) (gs ++ g ∷ []) ≡ true
any-name-append name [] g h = ground (arith, eq_iff g.name name)
any-name-append name (x ∷ gs) g h = ground (arith, any-name-append name gs g h)

filter-name-append :
    (name : String) (gs : List Group) (g : Group)
    → g.name ≡ name
    → any (λ (x : Group). x.name == name) gs ≡ false
    → filter (λ (x : Group). not (x.name == name)) (gs ++ g ∷ []) ≡ gs
filter-name-append name [] g h a = ground (arith, eq_iff g.name name)
filter-name-append name (x ∷ gs) g h a = ground (arith, filter-name-append name gs g h)

-- The policy with the group at the end of its groups.
abbrev with_group : GroupSummary → AnyPolicy → AnyPolicy
with_group g p = with_groups (groups_of p ++ group_to_add g ∷ []) p

module _ (b later : Backend) (group_name name : String) (groups : List GroupSummary)
    (g : GroupSummary) (p : AnyPolicy) where
  add-accepted :
      b.list_groups ≡ resolved groups
      → last_named group_name none groups ≡ some g
      → (get_policy_from_name b name).1 ≡ returned (some p)
      → has_group g.name p ≡ false
      → b.answer_patch (patch_of (with_group g p)) ≡ resolved tt
      → add_group_to_policy b group_name name ≡ (
        patched (patch_of (with_group g p)) ∷ logged_info (added_to group_name name) ∷ [],
        exited 0,
      )
  unfolding add_group_to_policy edit_policy
  add-accepted h l f a k = rw (looked_up b name (some p) f, h, l, a, k)

  delete-accepted :
      (first : GroupSummary)
      → later.list_groups ≡ resolved groups
      → find (λ x. x.name == group_name) groups ≡ some first
      → g.name ≡ first.name
      → (get_policy_from_name later name).1 ≡ returned (some (with_group g p))
      → has_group first.name p ≡ false
      → later.answer_patch (patch_of p) ≡ resolved tt
      → delete_group_from_policy later group_name name
        ≡ (patched (patch_of p) ∷ logged_info (deleted_from group_name name) ∷ [], exited 0)
  unfolding delete_group_from_policy edit_policy
  delete-accepted first h l e f a k = rw (
    looked_up later name (some (with_group g p)) f,
    h,
    l,
    groups_of-with_groups (groups_of p ++ group_to_add g ∷ []) p,
    any-name-append first.name (groups_of p) (group_to_add g) e,
    filter-name-append first.name (groups_of p) (group_to_add g) e a,
    with_groups_back (groups_of p ++ group_to_add g ∷ []) p,
    k,
  )

-- If the policy has no group of the name, adding the group and then deleting it by the same name
-- sends the policy with the group at its end, then the policy as it was, whichever of the
-- organization's groups of that name each handler takes.
delete_group-add_group :
    (b later : Backend) (group_name name : String) (groups : List GroupSummary)
    (last first : GroupSummary) (p : AnyPolicy)
    → b.list_groups ≡ resolved groups
    → last_named group_name none groups ≡ some last
    → (get_policy_from_name b name).1 ≡ returned (some p)
    → has_group group_name p ≡ false
    → b.answer_patch (patch_of (with_group last p)) ≡ resolved tt
    → later.list_groups ≡ resolved groups
    → find (λ x. x.name == group_name) groups ≡ some first
    → (get_policy_from_name later name).1 ≡ returned (some (with_group last p))
    → later.answer_patch (patch_of p) ≡ resolved tt
    → (add_group_to_policy b group_name name ≡ (
      patched (patch_of (with_group last p)) ∷ logged_info (added_to group_name name) ∷ [],
      exited 0,
    ))
      × (delete_group_from_policy later group_name name
          ≡ (patched (patch_of p) ∷ logged_info (deleted_from group_name name) ∷ [], exited 0))
delete_group-add_group b later group_name name groups last first p h l f a k h' l' f' k' =
    let last_is = last_named_sound group_name none groups last (λ x e. ground arith) l in
    let first_is =
      (eq_iff first.name group_name).0 (find_sound (λ x. x.name == group_name) groups l') in
    (
      add-accepted b later group_name name groups last p h l f (rw (last_is) a) k,
      delete-accepted b later group_name name groups last p first h' l' (last_is ∙ sym first_is) f'
          (rw (first_is) a) k',
    )

-- With no policy of the name, both handlers throw a TypeError in place of the message.
missing_policy_group :
    (b : Backend) (group_name name : String) (groups : List GroupSummary)
    (last first : GroupSummary)
    → b.list_groups ≡ resolved groups
    → last_named group_name none groups ≡ some last
    → find (λ x. x.name == group_name) groups ≡ some first
    → (get_policy_from_name b name).1 ≡ returned none
    → (add_group_to_policy b group_name name ≡ ([], threw type_error))
      × (delete_group_from_policy b group_name name ≡ ([], threw type_error))
unfolding add_group_to_policy delete_group_from_policy
missing_policy_group b group_name name groups last first h l f k =
    (rw (looked_up b name none k, h, l), rw (looked_up b name none k, h, f))
