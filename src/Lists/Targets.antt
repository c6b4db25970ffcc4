-- ===== src/Lists/Targets.antt =====
-- services/list-targets/list-targets.service.ts, with the conversions to target summaries of
-- utils/utils.ts.
pub mod Permitted
use zli.Prelude.{
  String, string_key, ◌==◌, Bool, true, false, not, ◌||◌, Option, none, some, List, [], ◌∷◌, ◌++◌,
  map, any, filter, if◌then◌else◌,
}
use zli.Dict.Defs.{Dict, get, set, values}
use zli.Effect.{Failure, type_error, Settled, resolved, rejected}

pub data TargetKind : Type 0 where
  ssm_target dynamic_access_config linux windows kubernetes cluster db web bzero : TargetKind

-- The key of a kind in an object. The values of the enumeration are not in the repository; they differ.
abbrev pub kind_key : TargetKind → String
kind_key ssm_target = "SsmTarget"
kind_key dynamic_access_config = "DynamicAccessConfig"
kind_key linux = "Linux"
kind_key windows = "Windows"
kind_key kubernetes = "Kubernetes"
kind_key cluster = "Cluster"
kind_key db = "Db"
kind_key web = "Web"
kind_key bzero = "Bzero"

-- `targetTypes.includes(type)`
abbrev pub includes : TargetKind → List TargetKind → Bool
includes kind kinds = any (λ k. kind_key k == kind_key kind) kinds

-- What is read of a target that the backend lists. `allowed_users` are the allowed target users, or
-- the cluster users of a kube cluster; `is_linux` is `agentType === AgentType.Linux`, else Windows.
pub record ListedTarget : Type 0 where
  pub id : String
  pub name : String
  pub environment_id : String
  pub agent_version : String
  pub region : String
  pub allowed_users : Option (List String)
  pub is_linux : Bool
  pub split_cert : Bool

-- The summary of a target, less its status and the public key of its agent.
pub record TargetSummary : Type 0 where
  pub target_kind : TargetKind
  pub id : String
  pub name : String
  pub environment_id : String
  pub agent_version : String
  pub region : String
  pub target_users : Option (List String)

-- The answer of a policy query about one target.
pub record PolicyAnswer : Type 0 where
  pub allowed : Bool
  pub allowed_users : List String

abbrev pub PolicyResponse : Type 0
PolicyResponse = Dict String PolicyAnswer

-- How the requests settle; the policy queries are for the given user. `to_target_type` is the function
-- `toTargetType` of the shared types, on `is_linux`.
pub record ListBackend : Type 0 where
  pub list_ssm_targets : Settled (List ListedTarget)
  pub list_dynamic_access_configs : Settled (List ListedTarget)
  pub list_bzero_targets : Settled (List ListedTarget)
  pub list_kube_clusters : Settled (List ListedTarget)
  pub list_db_targets : Settled (List ListedTarget)
  pub list_web_targets : Settled (List ListedTarget)
  pub target_connect_policy_query : TargetKind → List String → Settled PolicyResponse
  pub kube_policy_query : List String → Settled PolicyResponse
  pub proxy_policy_query : TargetKind → List String → Settled PolicyResponse
  pub to_target_type : Bool → TargetKind

abbrev pub after {ℓ κ} : {A : Type ℓ} {B : Type κ} → Settled A → (A → Settled B) → Settled B
after (resolved a) f = f a
after (rejected failure) f = rejected failure

abbrev pub kept :
    Option PolicyAnswer → ListedTarget → Settled (List ListedTarget) → Settled (List ListedTarget)
kept none t later = rejected type_error
kept (some answer) t later =
    after later (λ rest. resolved (if answer.allowed then t ∷ rest else rest))

-- `targets.filter(t => policyQueryResponse[t.id].allowed)`: reading a missing answer throws.
unfoldable pub allowed_targets : PolicyResponse → List ListedTarget → Settled (List ListedTarget)
allowed_targets response [] = resolved []
allowed_targets response (t ∷ targets) =
    kept (get t.id response) t (allowed_targets response targets)

-- The `forEach` that updates the allowed users of the targets that are left.
abbrev pub updated :
    (PolicyAnswer → ListedTarget → ListedTarget) → Option PolicyAnswer → ListedTarget → ListedTarget
updated update none t = t
updated update (some answer) t = update answer t

abbrev pub with_users : Option (List String) → ListedTarget → ListedTarget
with_users users t = record t { allowed_users = users }

abbrev pub set_users : PolicyAnswer → ListedTarget → ListedTarget
set_users answer t = with_users (some answer.allowed_users) t

-- `if (t.agentType === AgentType.Linux)`
abbrev pub set_linux_users : PolicyAnswer → ListedTarget → ListedTarget
set_linux_users answer t =
    with_users (if t.is_linux then some answer.allowed_users else t.allowed_users) t

abbrev pub set_db_users : PolicyAnswer → ListedTarget → ListedTarget
set_db_users answer t = with_users (if t.split_cert then some answer.allowed_users else none) t

abbrev pub keep_users : PolicyAnswer → ListedTarget → ListedTarget
keep_users answer t = t

abbrev pub is_given : Option String → Bool
is_given none = false
is_given (some email) = not (email == "")

abbrev pub restricted_by :
    (PolicyAnswer → ListedTarget → ListedTarget)
    → List ListedTarget
    → PolicyResponse
    → Settled (List ListedTarget)
restricted_by update targets response =
    after (allowed_targets response targets) (λ allowed.
      resolved (map (λ (t : ListedTarget). updated update (get t.id response) t) allowed))

-- What each kind does with its targets: with a user, they are filtered by the policies of the user.
unfoldable pub restricted :
    Option String
    → (List String → Settled PolicyResponse)
    → (PolicyAnswer → ListedTarget → ListedTarget)
    → List ListedTarget
    → Settled (List ListedTarget)
restricted user_email query update targets =
    if is_given user_email
    then after (query (map (λ (t : ListedTarget). t.id) targets)) (restricted_by update targets)
    else resolved targets

-- The summary of a target of the kind, as it is.
abbrev pub summary : TargetKind → ListedTarget → TargetSummary
summary kind t = record {
  target_kind = kind;
  id = t.id;
  name = t.name;
  environment_id = t.environment_id;
  agent_version = t.agent_version;
  region = t.region;
  target_users = t.allowed_users;
}

abbrev pub ssm_target_to_target_summary : ListedTarget → TargetSummary
ssm_target_to_target_summary t = summary ssm_target t

abbrev pub dynamic_config_to_target_summary : ListedTarget → TargetSummary
dynamic_config_to_target_summary t = record (summary dynamic_access_config t) {
  agent_version = "N/A";
  region = "N/A";
}

abbrev pub bzero_target_to_target_summary : (Bool → TargetKind) → ListedTarget → TargetSummary
bzero_target_to_target_summary to_target_type t = summary (to_target_type t.is_linux) t

abbrev pub db_target_to_target_summary : ListedTarget → TargetSummary
db_target_to_target_summary t = summary db t

abbrev pub kube_summary : ListedTarget → TargetSummary
kube_summary t = summary kubernetes t

abbrev pub web_summary : ListedTarget → TargetSummary
web_summary t = record (summary web t) { target_users = some [] }

module _ (to_target_type : Bool → TargetKind) where
  abbrev pub with_agent :
      Option (List String)
      → ListedTarget
      → Settled (List TargetSummary)
      → Settled (List TargetSummary)
  with_agent none t later = rejected type_error
  with_agent (some users) t later =
      after later (λ rest. resolved (bzero_target_to_target_summary to_target_type t ∷ rest))

  -- `allowedTargetUsers.map(…)` of each agent, which throws where there are none.
  unfoldable pub agent_summaries : List ListedTarget → Settled (List TargetSummary)
  agent_summaries [] = resolved []
  agent_summaries (t ∷ targets) = with_agent t.allowed_users t (agent_summaries targets)

-- The agents of the kinds that are wanted.
unfoldable pub wanted_agents : List TargetKind → List ListedTarget → List ListedTarget
wanted_agents kinds agents =
    if not (includes windows kinds)
    then filter (λ (t : ListedTarget). t.is_linux) agents
    else if not (includes linux kinds)
    then filter (λ (t : ListedTarget). not t.is_linux) agents
    else agents

-- The promise of a kind, if the kind is wanted.
abbrev pub when {ℓ} : {A : Type ℓ} → Bool → A → List A
when true a = a ∷ []
when false a = []

module _ (b : ListBackend) (kinds : List TargetKind) (user_email : Option String) where
  abbrev pub Work : Type 0
  Work = Settled (List TargetSummary)

  abbrev pub summaries :
      Settled (List ListedTarget)
      → (List String → Settled PolicyResponse)
      → (PolicyAnswer → ListedTarget → ListedTarget)
      → (ListedTarget → TargetSummary)
      → Work
  summaries listed query update to_summary =
      after (after listed (restricted user_email query update))
        (λ targets. resolved (map to_summary targets))

  unfoldable pub ssm_work : Work
  ssm_work =
      summaries b.list_ssm_targets (b.target_connect_policy_query ssm_target) set_users
        ssm_target_to_target_summary

  unfoldable pub dynamic_work : Work
  dynamic_work =
      summaries b.list_dynamic_access_configs (b.target_connect_policy_query dynamic_access_config)
        set_users dynamic_config_to_target_summary

  unfoldable pub bzero_work : Work
  bzero_work =
      after
        (after b.list_bzero_targets (λ agents.
          restricted user_email (b.target_connect_policy_query linux) set_linux_users
            (wanted_agents kinds agents)))
        (agent_summaries b.to_target_type)

  unfoldable pub kube_work : Work
  kube_work = summaries b.list_kube_clusters b.kube_policy_query set_users kube_summary

  unfoldable pub db_work : Work
  db_work =
      summaries b.list_db_targets (b.proxy_policy_query db) set_db_users db_target_to_target_summary

  unfoldable pub web_work : Work
  web_work = summaries b.list_web_targets (b.proxy_policy_query web) keep_users web_summary

  -- `targetSummaryWork`
  unfoldable pub target_summary_work : List Work
  target_summary_work =
      when (includes ssm_target kinds) ssm_work
      ++ when (includes dynamic_access_config kinds) dynamic_work
      ++ when (includes linux kinds || includes windows kinds) bzero_work
      ++ when (includes kubernetes kinds || includes cluster kinds) kube_work
      ++ when (includes db kinds) db_work
      ++ when (includes web kinds) web_work

-- `Promise.all`: it is rejected when a promise is.
unfoldable pub all_of : List (Settled (List TargetSummary)) → Settled (List (List TargetSummary))
all_of [] = resolved []
all_of (work ∷ works) =
    let later = all_of works in
    after work (λ targets. after later (λ rest. resolved (targets ∷ rest)))

-- Targets are stored under the kind of the first of them.
abbrev pub add_targets :
    List TargetSummary → Dict String (List TargetSummary) → Dict String (List TargetSummary)
add_targets [] per_type = per_type
add_targets (t ∷ targets) per_type = set (kind_key t.target_kind) (t ∷ targets) per_type

unfoldable pub per_type_from :
    Dict String (List TargetSummary) → List (List TargetSummary) → Dict String (List TargetSummary)
per_type_from per_type [] = per_type
per_type_from per_type (targets ∷ rest) = per_type_from (add_targets targets per_type) rest

abbrev pub concatenated : List (List TargetSummary) → List TargetSummary
concatenated [] = []
concatenated (targets ∷ rest) = targets ++ concatenated rest

unfoldable pub list_targets_per_type :
    ListBackend → List TargetKind → Option String → Settled (Dict String (List TargetSummary))
list_targets_per_type b kinds user_email =
    after (all_of (target_summary_work b kinds user_email)) (λ all. resolved (per_type_from [] all))

unfoldable pub list_targets :
    ListBackend → List TargetKind → Option String → Settled (List TargetSummary)
list_targets b kinds user_email =
    after (list_targets_per_type b kinds user_email)
      (λ per_type. resolved (concatenated (values per_type)))
