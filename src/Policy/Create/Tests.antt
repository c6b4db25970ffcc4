-- ===== src/Policy/Create/Tests.antt =====
-- Two agents of one name and a third, and the commands that name them.
use zli.Prelude.{String, true, false, none, some, [], ◌∷◌, ◌≡◌, refl, string_key, if◌then◌else◌}
use zli.Effect.{resolved, exited, returned}
use zli.Lists.Targets.{
  linux, windows, ListedTarget, ListBackend, per_type_from, dynamic_work, restricted, bzero_work,
  agent_summaries, wanted_agents, list_targets_per_type, all_of, target_summary_work,
}
use zli.Policy.Types.{Subject, user, PolicyTarget}
use zli.Dict.Defs.{get, set}
use zli.Policy.Identifiers.{
  IdentifierMap, get_subjects_by_email, parse_unique_resource, resources_map, parse_names,
  map_targets_by_name_or_id, map_targets_from, add_target,
}
use zli.Policy.Create.{
  requested, warned_created, Settings, BaseArgs, members, of_kinds, get_targets_by_name_or_id,
}
use zli.Policy.Create.Handlers.{
  create_cluster_policy_handler, create_tconnect_policy_handler, create_proxy_policy_handler,
  create_recording_policy_handler,
}
use zli.Policy.Create.Laws.{effects, EndsWell}
use zli.Policy.Create.Ends.{handlers-EndsWell}
use zli.Policy.Create.Single.{target_kinds, tconnect_request, create_tconnect_policy_handler_single}
use zli.Policy.Create.Ambiguous.{create_tconnect_policy_handler_first}

abbrev agent : String → String → ListedTarget
agent id name = record {
  id = id;
  name = name;
  environment_id = "e";
  agent_version = "7.0.0";
  region = "eu";
  allowed_users = some [];
  is_linux = true;
  split_cert = false;
}

abbrev lists : ListBackend
lists = record {
  list_ssm_targets = resolved [];
  list_dynamic_access_configs = resolved [];
  list_bzero_targets = resolved (agent "1" "db" ∷ agent "2" "db" ∷ agent "3" "web" ∷ []);
  list_kube_clusters = resolved [];
  list_db_targets = resolved [];
  list_web_targets = resolved [];
  target_connect_policy_query = λ kind ids. resolved [];
  kube_policy_query = λ ids. resolved [];
  proxy_policy_query = λ kind ids. resolved [];
  to_target_type = λ is_linux. if is_linux then linux else windows;
}

abbrev settings : Settings
settings = record {
  to_lower_case = λ text. text;
  subjects = resolved (record { id = "u1"; email = "a@b"; subject_type = user } ∷ []);
  groups = resolved [];
  environments = resolved [];
  lists = lists;
  version_ok = λ version. true;
  create = λ r. resolved (record { name = "p"; id = "9" });
  exits_before_request = false;
  exits_before_answer = false;
  exits_before_end = false;
}

abbrev args : BaseArgs
args = record {
  name = "p";
  users = none;
  subjects = some ("a@b" ∷ []);
  groups = none;
  description = none;
}

abbrev first : PolicyTarget
first = record { id = "1"; target_type = "Linux" }

abbrev second : PolicyTarget
second = record { id = "2"; target_type = "Linux" }

abbrev third : PolicyTarget
third = record { id = "3"; target_type = "Linux" }

abbrev caller : Subject
caller = record { id = "u1"; subject_type = user }

abbrev identifiers : IdentifierMap
identifiers =
    ("db", first ∷ second ∷ [])
    ∷ ("1", first ∷ [])
    ∷ ("2", second ∷ [])
    ∷ ("web", third ∷ [])
    ∷ ("3", third ∷ [])
    ∷ []

found_members : members settings args ≡ ([], returned (caller ∷ [], []))
unfolding members get_subjects_by_email parse_unique_resource resources_map parse_names set get
found_members = refl

found_targets : get_targets_by_name_or_id settings target_kinds ≡ resolved identifiers
unfolding get_targets_by_name_or_id list_targets_per_type all_of target_summary_work of_kinds
    map_targets_by_name_or_id map_targets_from add_target set get dynamic_work restricted bzero_work
    agent_summaries wanted_agents per_type_from
found_targets = refl

create_tconnect_policy_handler_single_example :
    create_tconnect_policy_handler settings args
      (some ("web" ∷ "2" ∷ []))
      none
      (some ("root" ∷ []))
      ("Shell" ∷ [])
    ≡ (
      (requested (
            tconnect_request settings args
              (caller ∷ [])
              []
              (third ∷ second ∷ [])
              ("root" ∷ [])
              ("Shell" ∷ []))
          ∷ warned_created "p" "9"
          ∷ []),
      exited 0,
    )
unfolding get
create_tconnect_policy_handler_single_example =
    create_tconnect_policy_handler_single settings args (caller ∷ []) [] ("web" ∷ "2" ∷ [])
      identifiers (third ∷ second ∷ []) none ("root" ∷ []) ("Shell" ∷ [])
      (record { name = "p"; id = "9" }) found_members found_targets refl refl

create_tconnect_policy_handler_first_example :
    (effects
        (create_tconnect_policy_handler settings args
          (some ("db" ∷ []))
          none
          (some ("root" ∷ []))
          ("Shell" ∷ [])).0
      ≡ requested (
          tconnect_request settings args (caller ∷ []) [] (first ∷ []) ("root" ∷ []) ("Shell" ∷ []))
        ∷ warned_created "p" "9"
        ∷ [])
    × ((create_tconnect_policy_handler settings args
          (some ("db" ∷ []))
          none
          (some ("root" ∷ []))
          ("Shell" ∷ [])).1
        ≡ exited 0)
unfolding get
create_tconnect_policy_handler_first_example =
    create_tconnect_policy_handler_first settings args (caller ∷ []) [] ("db" ∷ []) identifiers
      ((first, second ∷ []) ∷ []) none ("root" ∷ []) ("Shell" ∷ [])
      (record { name = "p"; id = "9" }) found_members found_targets refl refl refl refl refl

handlers-EndsWell_example :
    EndsWell settings false
      (create_cluster_policy_handler settings args (some ("db" ∷ [])) none none none)
    × EndsWell settings false
        (create_tconnect_policy_handler settings args (some ("db" ∷ [])) none none ("RDP" ∷ []))
    × EndsWell settings false
        (create_proxy_policy_handler settings args (some ("db" ∷ [])) none none)
    × EndsWell settings false (create_recording_policy_handler settings args true)
handlers-EndsWell_example =
    handlers-EndsWell settings args (some ("db" ∷ [])) none none none ("RDP" ∷ []) true
