-- ===== src/Quickstart/Provision/Laws.antt =====
-- What the loops over the user names push and request, described for each user name on its own.
use zli.Prelude.{
  Option, none, some, String, string_key, ◌==◌, List, [], ◌∷◌, ◌++◌, append-nil, find, Option-cases,
  inl, inr, map, filter, All, All-append, ◌≡◌, refl, sym, subst, ap,
}
use zli.Dict.Defs.{Dict}
use zli.Effect.{Run, Failure, exited, threw, returned, resolved, rejected, Settled, Settled-cases}
use zli.Policy.Identifiers.{EnvironmentSummary}
use zli.Quickstart.Types.{ValidSshHostAndConfig, RegistrableSshHost, RegisteredSshHost}
use zli.Quickstart.Grouping.{group_from, of_key}
use zli.Quickstart.Flattened.{flattened, for_group, flattened-group_from}
use Prim.Native.String.{◌++◌ as text_append}
use zli.Quickstart.Provision.{
  EnvironmentRequest, environment_request, ProvisionEvent, create_environment, add_policy,
  environment_failed, policy_failed, ProvisionBackend, for_groups, register_group, connect_group,
  environment_of, policy_of, caught, Attempt, quickstart_env_name, quickstart_policy_name,
  add_missing_policy, first_environment_id, host_username, target_username,
  create_env_for_unique_usernames, create_policy_for_unique_usernames,
}

-- The user name of the round that an event belongs to.
abbrev pub event_username : ProvisionEvent → String
event_username (create_environment username request) = username
event_username (add_policy username request) = username
event_username (environment_failed username failure) = username
event_username (policy_failed username failure) = username

-- What a run that returned gives, and nothing for one that did not.
abbrev pub given {ℓ κ} : {E : Type ℓ} {R : Type κ} → Run E (List R) → List R
given (es, returned rs) = rs
given (es, exited code) = []
given (es, threw failure) = []

module _ {ℓ κ} {H : Type ℓ} {R : Type κ} (f : String → List H → Run ProvisionEvent (List R)) where
  abbrev pub events_of : String → List H → List ProvisionEvent
  events_of k hs = (f k hs).0

  abbrev pub given_of : String → List H → List R
  given_of k hs = given (f k hs)

module _ {ℓ κ} {H : Type ℓ} {R : Type κ} (f : String → List H → Run ProvisionEvent (List R))
    (returns : (k : String) (hs : List H) → (f k hs).1 ≡ returned (given (f k hs)))
    (key : H → String) (tag : R → String)
    (results : (k : String) (hs : List H)
      → All (λ h. key h ≡ k) hs
      → All (λ r. tag r ≡ k) (given (f k hs)))
    (events : (k : String) (hs : List H) → All (λ e. event_username e ≡ k) (f k hs).0) where
  for_groups_lem :
      (d : Dict String (List H))
      → for_groups f d ≡ (flattened (events_of f) d, returned (flattened (given_of f) d))
  unfolding for_groups
  for_groups_lem [] = refl
  for_groups_lem ((k, hs) ∷ d) =
      rw (returns k hs, for_groups_lem d)
        (ap (λ l. ((f k hs).0 ++ l, returned (given (f k hs) ++ flattened (given_of f) d)))
          (append-nil (flattened (events_of f) d)))

  -- What the loop gives and what it does, for one user name.
  abbrev pub IsByName : String → List H → Run ProvisionEvent (List R) → Type κ
  IsByName k hosts run =
      (run.1 ≡ returned (given run))
      × (filter (λ r. tag r == k) (given run) ≡ for_group (given_of f) k (of_key key k hosts))
      × (filter (λ e. event_username e == k) run.0 ≡ for_group (events_of f) k (of_key key k hosts))

  for_groups-IsByName :
      (k : String) (hosts : List H) → IsByName k hosts (for_groups f (group_from key [] hosts))
  for_groups-IsByName k hosts =
      subst (IsByName k hosts) (sym (for_groups_lem (group_from key [] hosts))) (
        refl,
        flattened-group_from key (given_of f) tag results k hosts,
        flattened-group_from key (events_of f) event_username (λ j hs h. events j hs) k hosts,
      )

module _ {ℓ κ} {A : Type ℓ} {R : Type κ} (show : Failure → ProvisionEvent)
    (collect : A → List R) where
  caught_returns :
      (t : Attempt A) → (caught show collect t).1 ≡ returned (given (caught show collect t))
  caught_returns (es, resolved a) = refl
  caught_returns (es, rejected failure) = refl

  caught-All :
      (P : R → Type κ) (t : Attempt A)
      → ((a : A) → All P (collect a))
      → All P (given (caught show collect t))
  caught-All P (es, resolved a) h = h a
  caught-All P (es, rejected failure) h = tt

  caught_events-All :
      (P : ProvisionEvent → Type 0) (t : Attempt A)
      → All P t.0
      → ((failure : Failure) → P (show failure))
      → All P (caught show collect t).0
  caught_events-All P (es, resolved a) h k = h
  caught_events-All P (es, rejected failure) h k = All-append P es _ h (k failure, tt)

module _ (b : ProvisionBackend) where
  environment_of-All :
      (u : String) → All (λ (e : ProvisionEvent). event_username e ≡ u) (environment_of b u).0
  unfolding environment_of
  environment_of-All u = elim (Settled-cases (b.list_environments u)) [
    | inl (envs, e) ↦
        rw e
          (elim (Option-cases
            (find (λ (env : EnvironmentSummary). env.name == quickstart_env_name u) envs)) [
              | inl f ↦ rw f (refl, tt)
              | inr (env, f) ↦ rw f tt
            ])
    | inr (failure, e) ↦ rw e tt
  ]

  add_missing_policy-All :
      (u : String) (env : Settled String)
      → All (λ (e : ProvisionEvent). event_username e ≡ u) (add_missing_policy b u env).0
  add_missing_policy-All u (resolved id) = (refl, tt)
  add_missing_policy-All u (rejected failure) = tt

  policy_of-All :
      (u : String) (targets : List RegisteredSshHost)
      → All (λ (e : ProvisionEvent). event_username e ≡ u) (policy_of b u targets).0
  unfolding policy_of
  policy_of-All u targets = elim (Settled-cases (b.list_policy_names u)) [
    | inl (names, e) ↦
        rw e (elim (Option-cases (find (λ name. name == quickstart_policy_name u) names)) [
          | inl f ↦ rw f (add_missing_policy-All u (first_environment_id targets))
          | inr (name, f) ↦ rw f tt
        ])
    | inr (failure, e) ↦ rw e tt
  ]

  collected-All :
      (to_lower_case : String → String) (u id : String) (hosts : List ValidSshHostAndConfig)
      → All (λ h. host_username to_lower_case h ≡ u) hosts
      → All
          (λ (r : RegistrableSshHost). host_username to_lower_case r.host ≡ u)
          (map (λ (h : ValidSshHostAndConfig). record { host = h; env_id = id }) hosts)
  collected-All to_lower_case u id [] h = tt
  collected-All to_lower_case u id (x ∷ hosts) (h, hs) =
      (h, collected-All to_lower_case u id hosts hs)

  register_group-All :
      (to_lower_case : String → String) (u : String) (hosts : List ValidSshHostAndConfig)
      → All (λ h. host_username to_lower_case h ≡ u) hosts
      → All
          (λ (r : RegistrableSshHost). host_username to_lower_case r.host ≡ u)
          (given (register_group b u hosts))
  unfolding register_group
  register_group-All to_lower_case u hosts h =
      caught-All _ _ _ (environment_of b u) (λ id. collected-All to_lower_case u id hosts h)

  register_group_returns :
      (u : String) (hosts : List ValidSshHostAndConfig)
      → (register_group b u hosts).1 ≡ returned (given (register_group b u hosts))
  unfolding register_group
  register_group_returns u hosts = caught_returns _ _ (environment_of b u)

  register_group_events-All :
      (u : String) (hosts : List ValidSshHostAndConfig)
      → All (λ (e : ProvisionEvent). event_username e ≡ u) (register_group b u hosts).0
  unfolding register_group
  register_group_events-All u hosts =
      caught_events-All _ _ (λ (e : ProvisionEvent). event_username e ≡ u) (environment_of b u)
        (environment_of-All u) (λ failure. refl)

  connect_group_returns :
      (u : String) (targets : List RegisteredSshHost)
      → (connect_group b u targets).1 ≡ returned (given (connect_group b u targets))
  unfolding connect_group
  connect_group_returns u targets = caught_returns _ _ (policy_of b u targets)

  connect_group-All :
      (to_lower_case : String → String) (u : String) (targets : List RegisteredSshHost)
      → All (λ t. target_username to_lower_case t ≡ u) targets
      → All (λ t. target_username to_lower_case t ≡ u) (given (connect_group b u targets))
  unfolding connect_group
  connect_group-All to_lower_case u targets h =
      caught-All _ _ (λ t. target_username to_lower_case t ≡ u) (policy_of b u targets) (λ done. h)

  connect_group_events-All :
      (u : String) (targets : List RegisteredSshHost)
      → All (λ (e : ProvisionEvent). event_username e ≡ u) (connect_group b u targets).0
  unfolding connect_group
  connect_group_events-All u targets =
      caught_events-All _ _ (λ (e : ProvisionEvent). event_username e ≡ u) (policy_of b u targets)
        (policy_of-All u targets) (λ failure. refl)

-- The hosts with the id of one environment.
abbrev pub with_environment : String → List ValidSshHostAndConfig → List RegistrableSshHost
with_environment id = map (λ (h : ValidSshHostAndConfig). record { host = h; env_id = id })

-- The environment that the group of a user name is to have.
abbrev pub wanted_environment : String → EnvironmentRequest
wanted_environment username = record {
  name = text_append username "-users_quickstart";
  description =
      text_append "Quickstart autogenerated environment for " (text_append username " users");
  offline_cleanup_timeout_hours = 1;
}

module _ (b : ProvisionBackend) where
  abbrev pub listed_environment : String → List EnvironmentSummary → Option EnvironmentSummary
  listed_environment username envs =
      find (λ (e : EnvironmentSummary). e.name == text_append username "-users_quickstart") envs

  -- One round: the hosts that it gives and its requests and errors.
  pub data Round (username : String) (hosts : List ValidSshHostAndConfig)
      (given_hosts : List RegistrableSshHost) (es : List ProvisionEvent) : Type 0 where
    not_listed :
        (failure : Failure)
        → b.list_environments username ≡ rejected failure
        → given_hosts ≡ []
        → es ≡ environment_failed username failure ∷ []
        → Round username hosts given_hosts es
    found :
        (envs : List EnvironmentSummary) (env : EnvironmentSummary)
        → b.list_environments username ≡ resolved envs
        → listed_environment username envs ≡ some env
        → given_hosts ≡ with_environment env.id hosts
        → es ≡ []
        → Round username hosts given_hosts es
    created :
        (envs : List EnvironmentSummary) (id : String)
        → b.list_environments username ≡ resolved envs
        → listed_environment username envs ≡ none
        → b.create_environment (wanted_environment username) ≡ resolved id
        → given_hosts ≡ with_environment id hosts
        → es ≡ create_environment username (wanted_environment username) ∷ []
        → Round username hosts given_hosts es
    not_created :
        (envs : List EnvironmentSummary) (failure : Failure)
        → b.list_environments username ≡ resolved envs
        → listed_environment username envs ≡ none
        → b.create_environment (wanted_environment username) ≡ rejected failure
        → given_hosts ≡ []
        → es
          ≡ create_environment username (wanted_environment username)
            ∷ environment_failed username failure
            ∷ []
        → Round username hosts given_hosts es

  -- A user name of no host has no round.
  abbrev pub IsRound :
      String → List ValidSshHostAndConfig → List RegistrableSshHost → List ProvisionEvent → Type 0
  IsRound username [] given_hosts es = (given_hosts ≡ []) × (es ≡ [])
  IsRound username (h ∷ hosts) given_hosts es = Round username (h ∷ hosts) given_hosts es

  round_of_run :
      (username : String) (hosts : List ValidSshHostAndConfig) (es : List ProvisionEvent)
      (rs : List RegistrableSshHost)
      → register_group b username hosts ≡ (es, returned rs)
      → Round username hosts rs es
      → Round username hosts
          (given (register_group b username hosts))
          (register_group b username hosts).0
  round_of_run username hosts es rs e r =
      subst (λ run. Round username hosts (given run) run.0) (sym e) r

  register_group-Round :
      (username : String) (hosts : List ValidSshHostAndConfig)
      → Round username hosts
          (given (register_group b username hosts))
          (register_group b username hosts).0
  unfolding register_group environment_of quickstart_env_name environment_request
  register_group-Round username hosts = elim (Settled-cases (b.list_environments username)) [
    | inr (x, e) ↦ round_of_run username hosts _ _ (rw e refl) (not_listed x e refl refl)
    | inl (envs, e) ↦ elim (Option-cases (listed_environment username envs)) [
      | inr (env, f) ↦
          round_of_run username hosts _ _ (rw (e, f) refl) (found envs env e f refl refl)
      | inl f ↦ elim (Settled-cases (b.create_environment (wanted_environment username))) [
        | inl (id, g) ↦
            round_of_run username hosts _ _ (rw (e, f, g) refl) (created envs id e f g refl refl)
        | inr (x, g) ↦
            round_of_run username hosts _ _ (rw (e, f, g) refl) (not_created envs x e f g refl refl)
      ]
    ]
  ]

  for_group-IsRound :
      (username : String) (hosts : List ValidSshHostAndConfig)
      → IsRound username hosts
          (for_group (given_of (register_group b)) username hosts)
          (for_group (events_of (register_group b)) username hosts)
  for_group-IsRound username [] = (refl, refl)
  for_group-IsRound username (h ∷ hosts) = register_group-Round username (h ∷ hosts)

module _ (to_lower_case : String → String) (b : ProvisionBackend) where
  pub create_env_for_unique_usernames_grouped :
      (username : String) (hosts : List ValidSshHostAndConfig)
      → ((create_env_for_unique_usernames to_lower_case b hosts).1
          ≡ returned (given (create_env_for_unique_usernames to_lower_case b hosts)))
        × (filter
              (λ (r : RegistrableSshHost). host_username to_lower_case r.host == username)
              (given (create_env_for_unique_usernames to_lower_case b hosts))
            ≡ for_group
                (given_of (register_group b))
                username
                (of_key (host_username to_lower_case) username hosts))
        × (filter
              (λ e. event_username e == username)
              (create_env_for_unique_usernames to_lower_case b hosts).0
            ≡ for_group
                (events_of (register_group b))
                username
                (of_key (host_username to_lower_case) username hosts))
  unfolding create_env_for_unique_usernames
  create_env_for_unique_usernames_grouped username hosts =
      for_groups-IsByName (register_group b) (register_group_returns b)
        (host_username to_lower_case)
        (λ (r : RegistrableSshHost). host_username to_lower_case r.host)
        (register_group-All b to_lower_case) (register_group_events-All b) username hosts

  -- For each user name in lower case, among the hosts that are returned those of the name are the
  -- given hosts of the name in their order, each with the id of the environment that is listed under
  -- the name of the group or else was created for it, or none of them when listing or creating
  -- failed. The request to create one and the error of the name are those of one round, however many
  -- hosts share the name, and there are none for other names.
  pub create_env_for_unique_usernames_lem :
      (username : String) (hosts : List ValidSshHostAndConfig)
      → ((create_env_for_unique_usernames to_lower_case b hosts).1
          ≡ returned (given (create_env_for_unique_usernames to_lower_case b hosts)))
        × IsRound b username
            (of_key
              (λ (h : ValidSshHostAndConfig). to_lower_case h.ssh_host.username)
              username
              hosts)
            (filter
              (λ (r : RegistrableSshHost). to_lower_case r.host.ssh_host.username == username)
              (given (create_env_for_unique_usernames to_lower_case b hosts)))
            (filter
              (λ e. event_username e == username)
              (create_env_for_unique_usernames to_lower_case b hosts).0)
  create_env_for_unique_usernames_lem username hosts =
      let (e, rs, es) = create_env_for_unique_usernames_grouped username hosts in
      let group = of_key (host_username to_lower_case) username hosts in
      (
        e,
        subst
            (λ l. IsRound b username group l (
              filter (λ e. event_username e == username)
                (create_env_for_unique_usernames to_lower_case b hosts).0))
            (sym rs)
            (subst
              (λ l.
                IsRound b username group (for_group (given_of (register_group b)) username group) l)
              (sym es) (for_group-IsRound b username group)),
      )

  -- For each user name in lower case, among the targets that are returned those of the name are the
  -- given targets of the name in their order, or none of them when its policy could neither be found
  -- nor created. The requests and the errors of the name are those of one round, however many
  -- targets share it, and there are none for other names.
  pub create_policy_for_unique_usernames_lem :
      (username : String) (targets : List RegisteredSshHost)
      → ((create_policy_for_unique_usernames to_lower_case b targets).1
          ≡ returned (given (create_policy_for_unique_usernames to_lower_case b targets)))
        × (filter
              (λ t. target_username to_lower_case t == username)
              (given (create_policy_for_unique_usernames to_lower_case b targets))
            ≡ for_group
                (given_of (connect_group b))
                username
                (of_key (target_username to_lower_case) username targets))
        × (filter
              (λ e. event_username e == username)
              (create_policy_for_unique_usernames to_lower_case b targets).0
            ≡ for_group
                (events_of (connect_group b))
                username
                (of_key (target_username to_lower_case) username targets))
  unfolding create_policy_for_unique_usernames
  create_policy_for_unique_usernames_lem username targets =
      for_groups-IsByName (connect_group b) (connect_group_returns b)
        (target_username to_lower_case) (target_username to_lower_case)
        (connect_group-All b to_lower_case) (connect_group_events-All b) username targets
