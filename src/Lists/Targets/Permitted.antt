-- ===== src/Lists/Targets/Permitted.antt =====
-- With the email of a user, only targets that the policies of the user allow are listed.
use zli.Dict.Defs.{values}
use zli.Dict.Defs.{Dict}
use zli.Dict.Defs.{set}
use zli.Lists.Targets.{Bool}
use zli.Prelude.{
  ◌⊎◌, inl, inr, string_key, ◌==◌, false, All-append, ◌||◌, subst, sym, map, String, true, Option,
  none, some, List, [], ◌∷◌, All, ◌≡◌, refl, Bool-cases, Option-cases,
}
use zli.Dict.Defs.{get}
use zli.Effect.{Settled-cases, Settled, resolved, rejected}
use zli.Lists.Targets.{
  with_agent, kept, ssm_target_to_target_summary, dynamic_config_to_target_summary,
  db_target_to_target_summary, kube_summary, web_summary, set_users, set_db_users, set_linux_users,
  keep_users, wanted_agents, agent_summaries, when, summaries, includes, linux, windows, kubernetes,
  cluster, db, web, ssm_target, dynamic_access_config, TargetKind, TargetSummary, ListBackend,
  ssm_work, dynamic_work, bzero_work, kube_work, db_work, web_work, target_summary_work, all_of,
  add_targets, per_type_from, concatenated, list_targets_per_type, list_targets, kind_key,
  ListedTarget, PolicyAnswer, PolicyResponse, after, allowed_targets, updated, is_given,
  restricted_by, restricted,
}

-- What holds of the result of a promise that is resolved.
abbrev pub Resolves {ℓ} : {A : Type ℓ} → (A → Type 0) → Settled A → Type 0
Resolves P (resolved a) = P a
Resolves P (rejected failure) = Unit

pub Resolves-after {ℓ κ} :
    {A : Type ℓ} {B : Type κ} (P : A → Type 0) (Q : B → Type 0) (m : Settled A) (f : A → Settled B)
    → Resolves P m
    → ((a : A) → m ≡ resolved a → P a → Resolves Q (f a))
    → Resolves Q (after m f)
Resolves-after P Q (resolved a) f h k = k a refl h
Resolves-after P Q (rejected failure) f h k = tt

-- A policy query was answered with an answer that allows the target.
abbrev pub IsAllowed : PolicyResponse → String → Type 0
IsAllowed response id =
    (answer : PolicyAnswer) × (get id response ≡ some answer) × (answer.allowed ≡ true)

abbrev pub IsGranted : (List String → Settled PolicyResponse) → String → Type 0
IsGranted query id =
    (ids : List String) × (response : PolicyResponse) × (query ids ≡ resolved response)
    × IsAllowed response id

pub Resolves-trivial {ℓ} : {A : Type ℓ} (m : Settled A) → Resolves (λ a. Unit) m
Resolves-trivial (resolved a) = tt
Resolves-trivial (rejected failure) = tt

kept-IsAllowed :
    (response : PolicyResponse) (t : ListedTarget) (later : Settled (List ListedTarget))
    → Resolves (All (λ (u : ListedTarget). IsAllowed response u.id)) later
    → Resolves
        (All (λ (u : ListedTarget). IsAllowed response u.id))
        (kept (get t.id response) t later)
kept-IsAllowed response t (rejected failure) h = elim (Option-cases (get t.id response)) [
  | inl e ↦ rw e tt
  | inr (answer, e) ↦ rw e tt
]
kept-IsAllowed response t (resolved rest) h = elim (Option-cases (get t.id response)) [
  | inl e ↦ rw e tt
  | inr (answer, e) ↦
      rw e
        (elim (Bool-cases answer.allowed) [ inl f ↦ simp f ((answer, e, f), h) | inr f ↦ simp f h ])
]

allowed_targets-IsAllowed :
    (response : PolicyResponse) (targets : List ListedTarget)
    → Resolves
        (All (λ (t : ListedTarget). IsAllowed response t.id))
        (allowed_targets response targets)
unfolding allowed_targets
allowed_targets-IsAllowed response [] = tt
allowed_targets-IsAllowed response (t ∷ targets) =
    kept-IsAllowed response t (allowed_targets response targets)
      (allowed_targets-IsAllowed response targets)

module _ (query : List String → Settled PolicyResponse)
    (update : PolicyAnswer → ListedTarget → ListedTarget)
    (same_id : (answer : PolicyAnswer) (t : ListedTarget) → (update answer t).id ≡ t.id) where
  updated_id :
      (answer : Option PolicyAnswer) (t : ListedTarget) → (updated update answer t).id ≡ t.id
  updated_id none t = refl
  updated_id (some answer) t = same_id answer t

  updated-IsGranted :
      (ids : List String) (response : PolicyResponse) (targets : List ListedTarget)
      → query ids ≡ resolved response
      → All (λ (t : ListedTarget). IsAllowed response t.id) targets
      → All
          (λ (t : ListedTarget). IsGranted query t.id)
          (map (λ (t : ListedTarget). updated update (get t.id response) t) targets)
  updated-IsGranted ids response [] e h = tt
  updated-IsGranted ids response (t ∷ targets) e (h, hs) = (
    subst (IsGranted query) (sym (updated_id (get t.id response) t)) (ids, response, e, h),
    updated-IsGranted ids response targets e hs,
  )

  restricted-IsGranted :
      (user_email : Option String) (targets : List ListedTarget)
      → is_given user_email ≡ true
      → Resolves
          (All (λ (t : ListedTarget). IsGranted query t.id))
          (restricted user_email query update targets)
  unfolding restricted
  restricted-IsGranted user_email targets given = rw given (
      let ids = map (λ (t : ListedTarget). t.id) targets in
      Resolves-after (λ r. Unit) _ (query ids) (restricted_by update targets)
        (Resolves-trivial (query ids))
        (λ response e u.
          Resolves-after _ _ (allowed_targets response targets) _
            (allowed_targets-IsAllowed response targets)
            (λ allowed f h. updated-IsGranted ids response allowed e h)))

-- The policy query for the targets of a kind.
abbrev pub query_of : ListBackend → TargetKind → List String → Settled PolicyResponse
query_of b kubernetes = b.kube_policy_query
query_of b cluster = b.kube_policy_query
query_of b db = b.proxy_policy_query db
query_of b web = b.proxy_policy_query web
query_of b windows = b.target_connect_policy_query linux
query_of b kind = b.target_connect_policy_query kind

abbrev pub IsPermitted : ListBackend → TargetSummary → Type 0
IsPermitted b s = IsGranted (query_of b s.target_kind) s.id

module _ (b : ListBackend) (kinds : List TargetKind) (user_email : Option String)
    (given : is_given user_email ≡ true)
    (agents : (is_linux : Bool)
      → (b.to_target_type is_linux ≡ linux) ⊎ (b.to_target_type is_linux ≡ windows)) where
  mapped-IsPermitted :
      (kind : TargetKind) (to_summary : ListedTarget → TargetSummary)
      → ((t : ListedTarget) → ((to_summary t).target_kind ≡ kind) × ((to_summary t).id ≡ t.id))
      → (targets : List ListedTarget)
      → All (λ (t : ListedTarget). IsGranted (query_of b kind) t.id) targets
      → All (IsPermitted b) (map to_summary targets)
  mapped-IsPermitted kind to_summary same [] h = tt
  mapped-IsPermitted kind to_summary same (t ∷ targets) (h, hs) =
      let (k, i) = same t in
      (
        subst (λ j. IsGranted (query_of b j) (to_summary t).id) (sym k)
            (subst (IsGranted (query_of b kind)) (sym i) h),
        mapped-IsPermitted kind to_summary same targets hs,
      )

  summaries-IsPermitted :
      (kind : TargetKind) (listed : Settled (List ListedTarget))
      (update : PolicyAnswer → ListedTarget → ListedTarget)
      (to_summary : ListedTarget → TargetSummary)
      → ((answer : PolicyAnswer) (t : ListedTarget) → (update answer t).id ≡ t.id)
      → ((t : ListedTarget) → ((to_summary t).target_kind ≡ kind) × ((to_summary t).id ≡ t.id))
      → Resolves
          (All (IsPermitted b))
          (summaries b kinds user_email listed (query_of b kind) update to_summary)
  summaries-IsPermitted kind (rejected failure) update to_summary same_id same = tt
  summaries-IsPermitted kind (resolved targets) update to_summary same_id same =
      Resolves-after _ _ (restricted user_email (query_of b kind) update targets) _
        (restricted-IsGranted (query_of b kind) update same_id user_email targets given)
        (λ allowed e h. mapped-IsPermitted kind to_summary same allowed h)

  agent-IsPermitted :
      (id : String) (kind : TargetKind)
      → (kind ≡ linux) ⊎ (kind ≡ windows)
      → IsGranted (b.target_connect_policy_query linux) id
      → IsGranted (query_of b kind) id
  agent-IsPermitted id kind (inl e) h = subst (λ k. IsGranted (query_of b k) id) (sym e) h
  agent-IsPermitted id kind (inr e) h = subst (λ k. IsGranted (query_of b k) id) (sym e) h

  with_agent-IsPermitted :
      (t : ListedTarget) (users : Option (List String)) (later : Settled (List TargetSummary))
      → IsGranted (b.target_connect_policy_query linux) t.id
      → Resolves (All (IsPermitted b)) later
      → Resolves (All (IsPermitted b)) (with_agent b.to_target_type users t later)
  with_agent-IsPermitted t none later h k = tt
  with_agent-IsPermitted t (some users) (rejected failure) h k = tt
  with_agent-IsPermitted t (some users) (resolved rest) h k =
      (agent-IsPermitted t.id (b.to_target_type t.is_linux) (agents t.is_linux) h, k)

  agent_summaries-IsPermitted :
      (targets : List ListedTarget)
      → All (λ (t : ListedTarget). IsGranted (b.target_connect_policy_query linux) t.id) targets
      → Resolves (All (IsPermitted b)) (agent_summaries b.to_target_type targets)
  unfolding agent_summaries
  agent_summaries-IsPermitted [] h = tt
  agent_summaries-IsPermitted (t ∷ targets) (h, hs) =
      with_agent-IsPermitted t t.allowed_users (agent_summaries b.to_target_type targets) h
        (agent_summaries-IsPermitted targets hs)

  bzero_work-IsPermitted : Resolves (All (IsPermitted b)) (bzero_work b kinds user_email)
  unfolding bzero_work
  bzero_work-IsPermitted = elim (Settled-cases b.list_bzero_targets) [
    | inr (failure, e) ↦ rw e tt
    | inl (agents, e) ↦ rw e (
        Resolves-after _ _
          (restricted user_email (b.target_connect_policy_query linux) set_linux_users
            (wanted_agents kinds agents))
          (agent_summaries b.to_target_type)
          (restricted-IsGranted (b.target_connect_policy_query linux) set_linux_users
            (λ answer t. refl) user_email (wanted_agents kinds agents) given)
          (λ allowed f h. agent_summaries-IsPermitted allowed h))
  ]

  when-All : {A : Type 0} (P : A → Type 0) (c : Bool) (a : A) → P a → All P (when c a)
  when-All P true a h = (h, tt)
  when-All P false a h = tt

  abbrev ArePermitted : Settled (List TargetSummary) → Type 0
  ArePermitted work = Resolves (All (IsPermitted b)) work

  ssm-IsPermitted :
      All ArePermitted (when (includes ssm_target kinds) (ssm_work b kinds user_email))
  unfolding ssm_work
  ssm-IsPermitted =
      when-All ArePermitted (includes ssm_target kinds) (ssm_work b kinds user_email) (
        summaries-IsPermitted ssm_target b.list_ssm_targets set_users ssm_target_to_target_summary
          (λ answer t. refl) (λ t. (refl, refl)))

  dynamic-IsPermitted :
      All ArePermitted
        (when (includes dynamic_access_config kinds) (dynamic_work b kinds user_email))
  unfolding dynamic_work
  dynamic-IsPermitted =
      when-All ArePermitted (includes dynamic_access_config kinds) (dynamic_work b kinds user_email)
        (summaries-IsPermitted dynamic_access_config b.list_dynamic_access_configs set_users
          dynamic_config_to_target_summary (λ answer t. refl) (λ t. (refl, refl)))

  kube-IsPermitted :
      All ArePermitted
        (when (includes kubernetes kinds || includes cluster kinds) (kube_work b kinds user_email))
  unfolding kube_work
  kube-IsPermitted =
      when-All ArePermitted (includes kubernetes kinds || includes cluster kinds)
        (kube_work b kinds user_email)
        (summaries-IsPermitted kubernetes b.list_kube_clusters set_users kube_summary
          (λ answer t. refl) (λ t. (refl, refl)))

  db-IsPermitted : All ArePermitted (when (includes db kinds) (db_work b kinds user_email))
  unfolding db_work
  db-IsPermitted = when-All ArePermitted (includes db kinds) (db_work b kinds user_email) (
      summaries-IsPermitted db b.list_db_targets set_db_users db_target_to_target_summary
        (λ answer t. refl) (λ t. (refl, refl)))

  web-IsPermitted : All ArePermitted (when (includes web kinds) (web_work b kinds user_email))
  unfolding web_work
  web-IsPermitted = when-All ArePermitted (includes web kinds) (web_work b kinds user_email) (
      summaries-IsPermitted web b.list_web_targets keep_users web_summary (λ answer t. refl)
        (λ t. (refl, refl)))

  target_summary_work-All : All ArePermitted (target_summary_work b kinds user_email)
  unfolding target_summary_work
  target_summary_work-All =
      All-append ArePermitted _ _
        (All-append ArePermitted _ _
          (All-append ArePermitted _ _
            (All-append ArePermitted _ _
              (All-append ArePermitted _ _ ssm-IsPermitted dynamic-IsPermitted)
              (when-All ArePermitted (includes linux kinds || includes windows kinds)
                (bzero_work b kinds user_email) bzero_work-IsPermitted))
            kube-IsPermitted)
          db-IsPermitted)
        web-IsPermitted

module _ (P : TargetSummary → Type 0) where
  all_of-All :
      (works : List (Settled (List TargetSummary)))
      → All (Resolves (All P)) works
      → Resolves (All (All P)) (all_of works)
  unfolding all_of
  all_of-All [] h = tt
  all_of-All (work ∷ works) (h, hs) = Resolves-after (All P) (All (All P)) work _ h (λ targets e k.
      Resolves-after (All (All P)) (All (All P)) (all_of works) _ (all_of-All works hs)
        (λ rest f l. (k, l)))

  set-All :
      (key : String) (targets : List TargetSummary) (d : Dict String (List TargetSummary))
      → All P targets
      → All (All P) (values d)
      → All (All P) (values (set key targets d))
  unfolding set
  set-All key targets [] h k = (h, tt)
  set-All key targets ((j, old) ∷ d) h (k, ks) = elim (Bool-cases (j == key)) [
    | inl e ↦ rw e (h, ks)
    | inr e ↦ rw e (k, set-All key targets d h ks)
  ]

  add_targets-All :
      (targets : List TargetSummary) (d : Dict String (List TargetSummary))
      → All P targets
      → All (All P) (values d)
      → All (All P) (values (add_targets targets d))
  add_targets-All [] d h k = k
  add_targets-All (t ∷ targets) d h k = set-All (kind_key t.target_kind) (t ∷ targets) d h k

  per_type_from-All :
      (d : Dict String (List TargetSummary)) (all : List (List TargetSummary))
      → All (All P) (values d)
      → All (All P) all
      → All (All P) (values (per_type_from d all))
  unfolding per_type_from
  per_type_from-All d [] h k = h
  per_type_from-All d (targets ∷ rest) h (k, ks) =
      per_type_from-All (add_targets targets d) rest (add_targets-All targets d k h) ks

  concatenated-All :
      (lists : List (List TargetSummary)) → All (All P) lists → All P (concatenated lists)
  concatenated-All [] h = tt
  concatenated-All (targets ∷ rest) (h, hs) =
      All-append P targets (concatenated rest) h (concatenated-All rest hs)

-- With the email of a user, and when an agent is a target of the type Linux or Windows, for each target that is listed a policy query of its kind was answered
-- with an answer that allows the target.
pub list_targets-Resolves :
    (b : ListBackend) (kinds : List TargetKind) (user_email : Option String)
    → is_given user_email ≡ true
    → ((is_linux : Bool)
        → (b.to_target_type is_linux ≡ linux) ⊎ (b.to_target_type is_linux ≡ windows))
    → Resolves (All (IsPermitted b)) (list_targets b kinds user_email)
unfolding list_targets list_targets_per_type
list_targets-Resolves b kinds user_email given agents =
    Resolves-after (λ (d : Dict String (List TargetSummary)). All (All (IsPermitted b)) (values d))
      (All (IsPermitted b)) (list_targets_per_type b kinds user_email) _
      (Resolves-after (All (All (IsPermitted b))) _
        (all_of (target_summary_work b kinds user_email)) _
        (all_of-All (IsPermitted b) (target_summary_work b kinds user_email)
          (target_summary_work-All b kinds user_email given agents))
        (λ all e h. per_type_from-All (IsPermitted b) [] all tt h))
      (λ d e h. concatenated-All (IsPermitted b) (values d) h)
