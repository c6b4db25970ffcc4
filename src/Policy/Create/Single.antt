-- ===== src/Policy/Create/Single.antt =====
-- The policy that the handler of targets creates, by what the identifiers stand for.
use zli.Prelude.{
  String, false, Option, none, some, List, [], ◌∷◌, ◌≡◌, refl, map, arith, string_key,
}
use zli.Dict.Defs.{get}
use zli.Effect.{returned, exited, resolved}
use zli.Display.{parse_verb_type}
use zli.Lists.Targets.{TargetKind, linux, windows, dynamic_access_config}
use zli.Policy.Types.{Subject, Group, PolicyTarget}
use zli.Policy.Identifiers.{
  IdentifierMap, check_all_identifiers_exist, check_all_identifiers_are_single,
}
use zli.Policy.Create.{
  CreateRequest, add_target_connect_policy, requested, warned_created, Created, Settings, BaseArgs,
  first_targets, chosen_targets, members, get_targets_by_name_or_id, scope, send,
}
use zli.Policy.Create.Handlers.{create_tconnect_policy_handler}

module _ (kind : String) (m : IdentifierMap) where
  exist_single :
      (ids : List String) (ts : List PolicyTarget)
      → map (λ i. get i m) ids ≡ map (λ t. some (t ∷ [])) ts
      → check_all_identifiers_exist kind m ids ≡ ([], returned tt)
  unfolding check_all_identifiers_exist
  exist_single [] ts h = refl
  exist_single (id ∷ ids) [] h = absurd (ground arith)
  exist_single (id ∷ ids) (t ∷ ts) h = ground (arith, exist_single ids ts)

  are_single_single :
      (ids : List String) (ts : List PolicyTarget)
      → map (λ i. get i m) ids ≡ map (λ t. some (t ∷ [])) ts
      → check_all_identifiers_are_single kind m ids ≡ ([], returned tt)
  unfolding check_all_identifiers_are_single
  are_single_single [] ts h = refl
  are_single_single (id ∷ ids) [] h = absurd (ground arith)
  are_single_single (id ∷ ids) (t ∷ ts) h = ground (arith, are_single_single ids ts)

  first_targets_single :
      (ids : List String) (ts : List PolicyTarget)
      → map (λ i. get i m) ids ≡ map (λ t. some (t ∷ [])) ts
      → first_targets m ids ≡ ([], returned ts)
  unfolding first_targets
  first_targets_single [] [] h = refl
  first_targets_single [] (t ∷ ts) h = absurd (ground arith)
  first_targets_single (id ∷ ids) [] h = absurd (ground arith)
  first_targets_single (id ∷ ids) (t ∷ ts) h = ground (arith, first_targets_single ids ts)

  chosen_targets_single :
      (ids : List String) (ts : List PolicyTarget)
      → map (λ i. get i m) ids ≡ map (λ t. some (t ∷ [])) ts
      → chosen_targets kind m ids ≡ ([], returned (false, ts))
  unfolding chosen_targets
  chosen_targets_single ids ts h =
      rw (exist_single ids ts h, are_single_single ids ts h, first_targets_single ids ts h)

abbrev pub target_kinds : List TargetKind
target_kinds = linux ∷ windows ∷ dynamic_access_config ∷ []

-- The request for the subjects and groups, the targets and the options of the command.
abbrev pub tconnect_request :
    Settings
    → BaseArgs
    → List Subject
    → List Group
    → List PolicyTarget
    → List String
    → List String
    → CreateRequest
tconnect_request s args subjects groups ts target_users verbs = add_target_connect_policy (record {
  name = args.name;
  subjects = subjects;
  groups = groups;
  description = args.description;
  details = record {
    environments = none;
    targets = ts;
    target_users = target_users;
    verbs = map (λ v. parse_verb_type s.to_lower_case (some v)) verbs;
  };
})

-- If target users are given, the subjects and the groups of the command are found without a warning,
-- every identifier stands for one target and the backend accepts the request for these targets in their order, then the
-- handler sends it, reports the new policy and leaves with 0, whenever an exit would end the process.
pub create_tconnect_policy_handler_single :
    (s : Settings) (args : BaseArgs) (subjects : List Subject) (groups : List Group)
    (ids : List String) (m : IdentifierMap) (ts : List PolicyTarget)
    (environments : Option (List String)) (target_users verbs : List String) (c : Created)
    → members s args ≡ ([], returned (subjects, groups))
    → get_targets_by_name_or_id s target_kinds ≡ resolved m
    → map (λ i. get i m) ids ≡ map (λ t. some (t ∷ [])) ts
    → s.create (tconnect_request s args subjects groups ts target_users verbs) ≡ resolved c
    → create_tconnect_policy_handler s args (some ids) environments (some target_users) verbs ≡ (
      (requested (tconnect_request s args subjects groups ts target_users verbs)
          ∷ warned_created c.name c.id
          ∷ []),
      exited 0,
    )
unfolding create_tconnect_policy_handler scope send
create_tconnect_policy_handler_single s args subjects groups ids m ts environments target_users
      verbs c h i j k =
    rw (h, i, chosen_targets_single "bzero target or dynamic access config" m ids ts j, k)
