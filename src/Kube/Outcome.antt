-- ===== src/Kube/Outcome.antt =====
-- What `filterKubeConfig` returns, for a config in which names are distinct.
use zli.Prelude.{
  String, string_key, option_key, ◌==◌, Bool, true, false, not, ◌&&◌, ◌||◌, Option, some, List, [],
  ◌∷◌, ◌≡◌, refl, sym, ap, ap₂, ◌∙◌, arith, any, filter, All, inl, inr, Bool-cases, Option-cases,
  if◌then◌else◌,
}
use zli.Dict.Defs.{Dict, get, delete, values}
use zli.Effect.{resolved}
use zli.Daemon.Config.{DaemonConfig}
use zli.Daemon.Service.{DaemonStatus, find_running_daemon_with_predicate}
use zli.Kube.Config.{
  Cluster, Context, User, KubeConfig, ConfigService, get_kube_config_username,
  is_kube_context_bastion_zero,
}
use zli.Kube.Entries.{
  named_entries, build_map_of_named_kube_entries, HasDistinctNames, entry, values-named_entries,
  get-named_entries, build_map_of_distinct,
}
use zli.Kube.Filter.{
  Url, port_of, add, get_port_from_cluster_server, Runtime, delete_all, is_some, is_empty,
  arr_ports, stale_names, without_stale, filter_kube_config, FilterKubeConfigResult,
}
use zli.Kube.Filtered.{values-delete_all, stale, found, contexts_left, clusters_left, any_left}
use zli.Kube.Stale.{delete-named_entries}

-- The outcome of the filter, without the maps and the loop.
module _ (r : Runtime) (s : ConfigService) (config : KubeConfig) (ports : List String)
    (running : Bool) where
  abbrev removes_user : Bool
  removes_user =
      not running
      && is_some (entry (λ (u : User). u.name) (get_kube_config_username s) config.users)

  abbrev pub filtered : KubeConfig
  filtered = record {
    clusters =
        filter
          (λ (e : Cluster). not (
            any (λ c. stale r s config.clusters config.contexts ports c && c.cluster == e.name)
              config.contexts))
          config.clusters;
    users =
        if running
        then config.users
        else filter (λ (u : User). not (u.name == get_kube_config_username s)) config.users;
    contexts =
        filter (λ c. not (stale r s config.clusters config.contexts ports c)) config.contexts;
    current_context = config.current_context;
  }

  abbrev pub has_stale_entries : Bool
  has_stale_entries =
      any (stale r s config.clusters config.contexts ports) config.contexts || removes_user

  users_left :
      HasDistinctNames (λ (e : User). e.name) config.users
      → values (
          delete
            (get_kube_config_username s)
            (build_map_of_named_kube_entries (λ (u : User). u.name) config.users))
        ≡ filter (λ (u : User). not (u.name == get_kube_config_username s)) config.users
  users_left hu =
      ap (λ m. values (delete (get_kube_config_username s) m))
        (build_map_of_distinct (λ (e : User). e.name) config.users hu)
      ∙ ap values
          (delete-named_entries (λ (e : User). e.name) (get_kube_config_username s) config.users)
      ∙ values-named_entries (λ (e : User). e.name) _

  dirty_eq :
      (xs ks : List String)
      → HasDistinctNames (λ (e : User). e.name) config.users
      → (not (is_empty xs) ≡ any (stale r s config.clusters config.contexts ports) config.contexts)
        × (not (is_empty ks)
            ≡ any (stale r s config.clusters config.contexts ports) config.contexts)
      → (without_stale s config running (xs, ks)).is_dirty ≡ has_stale_entries
  unfolding without_stale
  dirty_eq xs ks hu (h, k) =
      ap₂ (λ a b. a || b) h
        (ap₂ (λ a b. a || b) k
          (ap (λ m. if running then false else is_some (get (get_kube_config_username s) m))
              (build_map_of_distinct (λ (e : User). e.name) config.users hu)
            ∙ ap (λ o. if running then false else is_some o)
                (get-named_entries (λ (e : User). e.name) (get_kube_config_username s)
                  config.users)))
      ∙ ground arith

  without_stale_lem :
      (xs ks : List String)
      → HasDistinctNames (λ (e : Cluster). e.name) config.clusters
      → HasDistinctNames (λ (e : User). e.name) config.users
      → HasDistinctNames (λ (e : Context). e.name) config.contexts
      → found r s config.clusters config.contexts ports ≡ resolved (xs, ks)
      → ((without_stale s config running (xs, ks)).filtered_kube_config ≡ filtered)
        × ((without_stale s config running (xs, ks)).is_dirty ≡ has_stale_entries)
  unfolding without_stale
  without_stale_lem xs ks hc hu hx h = (
    λ i. record {
      clusters =
          (ap (λ m. values (delete_all ks m))
                (build_map_of_distinct (λ (e : Cluster). e.name) config.clusters hc)
              ∙ values-delete_all (λ (e : Cluster). e.name) ks config.clusters
              ∙ clusters_left r s config.clusters config.contexts ports xs ks h)
            i;
      users = ap (λ us. if running then config.users else us) (users_left hu) i;
      contexts =
          (ap (λ m. values (delete_all xs m))
                (build_map_of_distinct (λ (e : Context). e.name) config.contexts hx)
              ∙ values-delete_all (λ (e : Context). e.name) xs config.contexts
              ∙ contexts_left r s config.clusters config.contexts ports xs ks h hx)
            i;
      current_context = config.current_context;
    },
    dirty_eq xs ks hu (any_left r s config.clusters config.contexts ports xs ks h),
  )

-- The servers of the clusters are URLs.
abbrev HasUrls : Runtime → List Cluster → Type 0
HasUrls r clusters = All (λ (e : Cluster). (u : Url) × (r.new_url e.server ≡ resolved u)) clusters

port_resolved :
    (r : Runtime) (n : String) (clusters : List Cluster) (cluster : Cluster)
    → HasUrls r clusters
    → entry (λ (e : Cluster). e.name) n clusters ≡ some cluster
    → (port : String) × (get_port_from_cluster_server r cluster ≡ resolved port)
unfolding get_port_from_cluster_server
port_resolved r n [] cluster h e = absurd (cc)
port_resolved r n (x ∷ clusters) cluster ((u, k), h) e = elim (Bool-cases (x.name == n)) [
  | inl same ↦ (port_of u, ground arith)
  | inr other ↦ port_resolved r n clusters cluster h (ground arith)
]

stale_names_resolved :
    (r : Runtime) (s : ConfigService) (m : Dict String Cluster) (ports : List String)
    (d : Dict String Context) (xs ks : List String)
    → ((n : String) (cluster : Cluster)
        → get n m ≡ some cluster
        → (port : String) × (get_port_from_cluster_server r cluster ≡ resolved port))
    → (ys : List String) × (ls : List String) × (stale_names r s m ports d xs ks
        ≡ resolved (ys, ls))
unfolding stale_names
stale_names_resolved r s m ports [] xs ks h = (xs, ks, refl)
stale_names_resolved r s m ports ((k, c) ∷ d) xs ks h = elim (Option-cases (get c.cluster m)) [
  | inl absent ↦
      let (ys, ls, e) = stale_names_resolved r s m ports d xs ks h in (ys, ls, ground arith)
  | inr (cluster, at) ↦
      let (port, p) = h c.cluster cluster at in
      elim (Bool-cases (is_kube_context_bastion_zero s c && not (any (λ q. q == port) ports))) [
        | inl stale ↦
            let (ys, ls, e) =
              stale_names_resolved r s m ports d (add k xs) (add cluster.name ks) h in
            (ys, ls, ground arith)
        | inr fresh ↦
            let (ys, ls, e) = stale_names_resolved r s m ports d xs ks h in (ys, ls, ground arith)
      ]
]

filter_at :
    (r : Runtime) (s : ConfigService) (configs : Dict (Option String) DaemonConfig)
    (d : Dict (Option String) DaemonStatus) (config : KubeConfig) (xs ks : List String)
    → stale_names r s
        (build_map_of_named_kube_entries (λ (e : Cluster). e.name) config.clusters)
        (arr_ports r (values configs))
        (build_map_of_named_kube_entries (λ (e : Context). e.name) config.contexts)
        []
        []
      ≡ resolved (xs, ks)
    → filter_kube_config r s configs (resolved d) config
      ≡ resolved (
          without_stale s config
            (is_some (find_running_daemon_with_predicate d (λ _. true)))
            (xs, ks))
unfolding filter_kube_config
filter_at r s configs d config xs ks h = ground arith

-- If the statuses of the daemons are obtained, names are distinct among the clusters, the users and the
-- contexts of the config and the servers of its clusters are URLs, the filter returns. It keeps exactly the contexts that are not stale and the clusters that no stale
-- context refers to, in order, and the current context. It keeps the users unless no daemon runs,
-- and then drops the managed user alone. The result is dirty exactly if there was a stale context
-- or the managed user was dropped.
pub filter_kube_config_lem :
    (r : Runtime) (s : ConfigService) (configs : Dict (Option String) DaemonConfig)
    (d : Dict (Option String) DaemonStatus) (config : KubeConfig)
    → HasDistinctNames (λ (e : Cluster). e.name) config.clusters
    → HasDistinctNames (λ (e : User). e.name) config.users
    → HasDistinctNames (λ (e : Context). e.name) config.contexts
    → HasUrls r config.clusters
    → (out : FilterKubeConfigResult) × (filter_kube_config r s configs (resolved d) config
        ≡ resolved out)
      × (out.filtered_kube_config
          ≡ filtered r s config
              (arr_ports r (values configs))
              (is_some (find_running_daemon_with_predicate d (λ _. true))))
      × (out.is_dirty
          ≡ has_stale_entries r s config
              (arr_ports r (values configs))
              (is_some (find_running_daemon_with_predicate d (λ _. true))))
filter_kube_config_lem r s configs d config hc hu hx h =
    let m = named_entries (λ (e : Cluster). e.name) config.clusters in
    let ports = arr_ports r (values configs) in
    let (xs, ks, e) =
      stale_names_resolved r s m ports (named_entries (λ (e : Context). e.name) config.contexts) []
        []
        (λ n cluster at.
          port_resolved r n config.clusters cluster h
            (sym (get-named_entries (λ (e : Cluster). e.name) n config.clusters) ∙ at)) in
    let running = is_some (find_running_daemon_with_predicate d (λ _. true)) in
    let (kept, dirty) = without_stale_lem r s config ports running xs ks hc hu hx e in
    (
      without_stale s config running (xs, ks),
      filter_at r s configs d config xs ks (
          ap₂ (λ a b. stale_names r s a ports b [] [])
            (build_map_of_distinct (λ (e : Cluster). e.name) config.clusters hc)
            (build_map_of_distinct (λ (e : Context). e.name) config.contexts hx)
          ∙ e),
      kept,
      dirty,
    )
