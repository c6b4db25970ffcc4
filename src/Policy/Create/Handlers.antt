-- ===== src/Policy/Create/Handlers.antt =====
-- The four handlers that create a policy.
use zli.Prelude.{
  String, string_key, ◌==◌, Bool, false, not, ◌&&◌, Option, none, some, List, [], ◌∷◌, map, any,
  if◌then◌else◌,
}
use zli.Effect.{pure, ◌>>=◌, ◌>>◌}
use zli.Display.{rdp, sql_server, verb_type_display, parse_verb_type}
use zli.Lists.Targets.{linux, windows, dynamic_access_config, kubernetes, db, web}
use zli.Policy.Types.{PolicyTarget}
use zli.Policy.Create.{
  add_kubernetes_policy, add_target_connect_policy, add_proxy_policy, add_session_recording_policy,
  must_provide_target_user, Settings, BaseArgs, Creating, fail, or_empty, demand_either, members,
  scope, send,
}

module _ (s : Settings) where
  unfoldable pub create_cluster_policy_handler :
      BaseArgs
      → (clusters environments target_users target_groups : Option (List String))
      → Creating (Unit {0})
  create_cluster_policy_handler args clusters environments target_users target_groups = do
    demand_either clusters environments
    (subjects, groups) ← members s args
    (pending, (chosen, ids)) ← scope s "cluster" (kubernetes ∷ []) clusters environments
    send s pending (
        add_kubernetes_policy (record {
          name = args.name;
          subjects = subjects;
          groups = groups;
          description = args.description;
          details = record {
            environments = ids;
            clusters = some (map (λ (t : PolicyTarget). t.id) chosen);
            cluster_users = or_empty target_users;
            cluster_groups = or_empty target_groups;
          };
        }))

  -- `verb != verbTypeDisplay(VerbType.RDP).toLowerCase() && …`
  unfoldable pub needs_target_user : String → Bool
  needs_target_user verb =
      not (verb == s.to_lower_case (verb_type_display rdp))
      && not (verb == s.to_lower_case (verb_type_display sql_server))

  abbrev pub demand_target_user : Option (List String) → List String → Creating (Unit {0})
  demand_target_user (some users) verbs = pure tt
  demand_target_user none verbs =
      if any needs_target_user verbs then fail must_provide_target_user else pure tt

  unfoldable pub create_tconnect_policy_handler :
      BaseArgs
      → (targets environments target_users : Option (List String)) → List String
      → Creating (Unit {0})
  create_tconnect_policy_handler args targets environments target_users verbs = do
    demand_either targets environments
    demand_target_user target_users verbs
    (subjects, groups) ← members s args
    (pending, (chosen, ids)) ←
        scope s "bzero target or dynamic access config"
          (linux ∷ windows ∷ dynamic_access_config ∷ []) targets environments
    send s pending (
        add_target_connect_policy (record {
          name = args.name;
          subjects = subjects;
          groups = groups;
          description = args.description;
          details = record {
            environments = ids;
            targets = chosen;
            target_users = or_empty target_users;
            verbs = map (λ v. parse_verb_type s.to_lower_case (some v)) verbs;
          };
        }))

  unfoldable pub create_proxy_policy_handler :
      BaseArgs → (targets environments target_users : Option (List String)) → Creating (Unit {0})
  create_proxy_policy_handler args targets environments target_users = do
    demand_either targets environments
    (subjects, groups) ← members s args
    (pending, (chosen, ids)) ← scope s "virtual target" (db ∷ web ∷ []) targets environments
    send s pending (
        add_proxy_policy (record {
          name = args.name;
          subjects = subjects;
          groups = groups;
          description = args.description;
          details = record {
            environments = ids;
            targets = some chosen;
            target_users = or_empty target_users;
          };
        }))

  unfoldable pub create_recording_policy_handler : BaseArgs → Bool → Creating (Unit {0})
  create_recording_policy_handler args record_input = do
    (subjects, groups) ← members s args
    send s false (
        add_session_recording_policy (record {
          name = args.name;
          subjects = subjects;
          groups = groups;
          description = args.description;
          details = record { record_input = record_input };
        }))
