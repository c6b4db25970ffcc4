-- ===== src/Policy/Create/Ambiguous.antt =====
-- What the handler of targets does with a name that several targets have.
use zli.Prelude.{
  String, Bool, true, false, Option, some, List, [], ◌∷◌, ◌++◌, ◌≡◌, refl, map, append-nil, arith,
  string_key,
}
use zli.Dict.Defs.{get}
use zli.Effect.{returned, exited, resolved}
use zli.Policy.Types.{Subject, Group, PolicyTarget}
use zli.Policy.Identifiers.{
  IdentifierError, IdentifierMap, check_all_identifiers_exist, check_all_identifiers_are_single,
}
use zli.Policy.Create.{
  CreateEvent, logged, CreateRequest, requested, warned_created, Created, Settings, BaseArgs,
  first_targets, chosen_targets, members, get_targets_by_name_or_id, scope, send,
}
use zli.Policy.Create.Handlers.{create_tconnect_policy_handler}
use zli.Policy.Create.Laws.{effects, effects-append, effects-logged}
use zli.Policy.Create.Single.{target_kinds, tconnect_request}

-- The identifiers stand for targets, the first of them and the others.
abbrev pub Found : IdentifierMap → List String → List (PolicyTarget × List PolicyTarget) → Type 0
Found m ids found = map (λ i. get i m) ids ≡ map (λ f. some (f.0 ∷ f.1)) found

module _ (kind : String) (m : IdentifierMap) where
  exist-Found :
      (ids : List String) (found : List (PolicyTarget × List PolicyTarget))
      → Found m ids found
      → check_all_identifiers_exist kind m ids ≡ ([], returned tt)
  unfolding check_all_identifiers_exist
  exist-Found [] found h = refl
  exist-Found (id ∷ ids) [] h = absurd (ground arith)
  exist-Found (id ∷ ids) (f ∷ found) h = ground (arith, exist-Found ids found)

  first_targets-Found :
      (ids : List String) (found : List (PolicyTarget × List PolicyTarget))
      → Found m ids found
      → first_targets m ids ≡ ([], returned (map (λ f. f.0) found))
  unfolding first_targets
  first_targets-Found [] [] h = refl
  first_targets-Found [] (f ∷ found) h = absurd (ground arith)
  first_targets-Found (id ∷ ids) [] h = absurd (ground arith)
  first_targets-Found (id ∷ ids) (f ∷ found) h = ground (arith, first_targets-Found ids found)

-- The end, when no pending exit ends the process before the handler does.
send_late :
    (s : Settings) (pending : Bool) (r : CreateRequest) (c : Created)
    → s.exits_before_request ≡ false
    → s.exits_before_answer ≡ false
    → s.exits_before_end ≡ false
    → s.create r ≡ resolved c
    → send s pending r ≡ (requested r ∷ warned_created c.name c.id ∷ [], exited 0)
unfolding send
send_late s true r c x y z h = rw (x, y, z, h)
send_late s false r c x y z h = rw (h)

effects-after_logged :
    (es : List IdentifierError) (fs : List CreateEvent)
    → effects (logged es ++ [] ++ [] ++ fs) ≡ effects fs
effects-after_logged es fs =
    rw (append-nil (logged es), append-nil (logged es))
      (effects-append (logged es) fs (effects-logged es))

-- If target users are given, the subjects and the groups are found without a warning, every identifier stands for one target
-- or more, the backend accepts the request and the handler ends before an exit that a failed check has
-- begun, then the handler creates the policy for the first target of each identifier and leaves with
-- 0, also when an identifier stands for several targets.
pub create_tconnect_policy_handler_first :
    (s : Settings) (args : BaseArgs) (subjects : List Subject) (groups : List Group)
    (ids : List String) (m : IdentifierMap) (found : List (PolicyTarget × List PolicyTarget))
    (environments : Option (List String)) (target_users verbs : List String) (c : Created)
    → members s args ≡ ([], returned (subjects, groups))
    → get_targets_by_name_or_id s target_kinds ≡ resolved m
    → Found m ids found
    → s.create (tconnect_request s args subjects groups (map (λ f. f.0) found) target_users verbs)
      ≡ resolved c
    → s.exits_before_request ≡ false
    → s.exits_before_answer ≡ false
    → s.exits_before_end ≡ false
    → (effects
          (create_tconnect_policy_handler s args
            (some ids)
            environments
            (some target_users)
            verbs).0
        ≡ requested
            (tconnect_request s args subjects groups (map (λ f. f.0) found) target_users verbs)
          ∷ warned_created c.name c.id
          ∷ [])
      × ((create_tconnect_policy_handler s args (some ids) environments (some target_users) verbs).1
          ≡ exited 0)
unfolding create_tconnect_policy_handler scope chosen_targets
create_tconnect_policy_handler_first s args subjects groups ids m found environments target_users
      verbs c h i j k x y z =
    rw
      (
        h,
        i,
        exist-Found "bzero target or dynamic access config" m ids found j,
        first_targets-Found "bzero target or dynamic access config" m ids found j,
        send_late s _
            (tconnect_request s args subjects groups (map (λ f. f.0) found) target_users verbs) c x
            y z k,
      )
      (
        effects-after_logged
            (check_all_identifiers_are_single "bzero target or dynamic access config" m ids).0
            (requested
                (tconnect_request s args subjects groups (map (λ f. f.0) found) target_users verbs)
              ∷ warned_created c.name c.id
              ∷ []),
        refl,
      )
