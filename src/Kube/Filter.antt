-- ===== src/Kube/Filter.antt =====
-- `filterKubeConfig`: the stale entries of the user's kube config, and what is left without them.
use zli.Prelude.{
  ℕ, String, string_key, option_key, nat_key, ◌==◌, Bool, true, false, not, ◌||◌, Option, none,
  some, List, [], ◌∷◌, ◌++◌, any, if◌then◌else◌,
}
use zli.Dict.Defs.{Dict, get, delete, values}
use zli.Effect.{Settled, resolved, rejected}
use zli.Daemon.Config.{DaemonConfig, base}
use zli.Daemon.Service.{DaemonStatus, find_running_daemon_with_predicate}
use zli.Kube.Config.{
  Cluster, Context, User, KubeConfig, ConfigService, get_kube_config_username,
  is_kube_context_bastion_zero,
}
use zli.Kube.Entries.{build_map_of_named_kube_entries}

-- The protocol and the port of a parsed URL; the port is empty if it is the protocol's default.
pub record Url : Type 0 where
  pub protocol : String
  pub port : String

-- What the runtime does: `new URL(text)`, and `n.toString()`.
pub record Runtime : Type 0 where
  pub new_url : String → Settled Url
  pub number_to_string : ℕ → String

pub record FilterKubeConfigResult : Type 0 where
  pub filtered_kube_config : KubeConfig
  pub removed_kube_contexts : List String
  pub removed_kube_clusters : List String
  pub is_dirty : Bool

-- `set.add(x)`
unfoldable pub add : String → List String → List String
add x xs = if any (λ y. y == x) xs then xs else xs ++ x ∷ []

-- `names.forEach(name => map.delete(name))`
unfoldable pub delete_all {ℓ} : {T : Type ℓ} → List String → Dict String T → Dict String T
delete_all [] d = d
delete_all (n ∷ names) d = delete_all names (delete n d)

unfoldable pub port_of : Url → String
port_of u =
    if u.port == ""
    then (if u.protocol == "http:" then "80" else if u.protocol == "https:" then "443" else u.port)
    else u.port

abbrev pub is_empty : List String → Bool
is_empty [] = true
is_empty (x ∷ xs) = false

abbrev pub is_some {ℓ} : {A : Type ℓ} → Option A → Bool
is_some none = false
is_some (some a) = true

-- What is left once the stale names are known. `running` is whether a daemon is running.
unfoldable pub without_stale :
    ConfigService
    → KubeConfig
    → (running : Bool) → List String × List String
    → FilterKubeConfigResult
without_stale s kube_config running (contexts, clusters) =
    let users_map = build_map_of_named_kube_entries (λ (u : User). u.name) kube_config.users in
    let name = get_kube_config_username s in
    let removed_user = if running then false else is_some (get name users_map) in
    record {
      filtered_kube_config = record {
        clusters = values (
            delete_all clusters
              (build_map_of_named_kube_entries (λ (e : Cluster). e.name) kube_config.clusters));
        users = if running then kube_config.users else values (delete name users_map);
        contexts = values (
            delete_all contexts
              (build_map_of_named_kube_entries (λ (e : Context). e.name) kube_config.contexts));
        current_context = kube_config.current_context;
      };
      removed_kube_contexts = contexts;
      removed_kube_clusters = clusters;
      is_dirty = not (is_empty contexts) || (not (is_empty clusters) || removed_user);
    }

module _ (r : Runtime) where
  unfoldable pub get_port_from_cluster_server : Cluster → Settled String
  get_port_from_cluster_server cluster = elim (r.new_url cluster.server) [
    | resolved u ↦ resolved (port_of u)
    | rejected failure ↦ rejected failure
  ]

  -- The ports of the stored daemons, `if (c.localPort)` of which is set and not 0.
  unfoldable pub arr_ports : List DaemonConfig → List String
  arr_ports [] = []
  arr_ports (c ∷ configs) =
      let rest = arr_ports configs in
      elim (base c).local_port [
        | none ↦ rest
        | some n ↦ if n == 0 then rest else r.number_to_string n ∷ rest
      ]

  -- The loop over the map of the contexts, with the two sets of stale names.
  unfoldable pub stale_names :
      ConfigService
      → Dict String Cluster
      → (ports : List String) → Dict String Context
      → (contexts clusters : List String) → Settled (List String × List String)
  stale_names s clusters_map ports [] contexts clusters = resolved (contexts, clusters)
  stale_names s clusters_map ports ((context_name, context) ∷ rest) contexts clusters =
      if is_kube_context_bastion_zero s context
      then (elim (get context.cluster clusters_map) [
        | none ↦ stale_names s clusters_map ports rest contexts clusters
        | some ref_cluster ↦ elim (get_port_from_cluster_server ref_cluster) [
          | rejected failure ↦ rejected failure
          | resolved port ↦
              if any (λ p. p == port) ports
              then stale_names s clusters_map ports rest contexts clusters
              else stale_names s clusters_map ports rest (add context_name contexts)
                  (add ref_cluster.name clusters)
        ]
      ])
      else stale_names s clusters_map ports rest contexts clusters

  -- `configs` and `statuses` are the answers of the service of the kube daemons.
  unfoldable pub filter_kube_config :
      ConfigService
      → (configs : Dict (Option String) DaemonConfig)
      → (statuses : Settled (Dict (Option String) DaemonStatus)) → KubeConfig
      → Settled FilterKubeConfigResult
  filter_kube_config s configs statuses kube_config =
      elim (stale_names s
        (build_map_of_named_kube_entries (λ (e : Cluster). e.name) kube_config.clusters)
        (arr_ports (values configs))
        (build_map_of_named_kube_entries (λ (e : Context). e.name) kube_config.contexts) [] []) [
          | rejected failure ↦ rejected failure
          | resolved stale ↦ elim statuses [
            | rejected failure ↦ rejected failure
            | resolved d ↦ resolved (
                without_stale s kube_config
                  (is_some (find_running_daemon_with_predicate d (λ _. true))) stale)
          ]
        ]
