-- ===== src/Kube/Tests.antt =====
-- A config with one running and one stale cluster, beside an entry of the user's own.
use zli.Prelude.{
  string_key, nat_key, option_key, ◌==◌, true, false, none, some, [], ◌∷◌, ◌≡◌, refl, if◌then◌else◌,
}
use zli.Dict.Defs.{get}
use zli.Effect.{resolved}
use zli.Daemon.Service.{find_running_daemon_with_predicate}
use zli.Kube.Config.{
  Cluster, Context, User, KubeConfig, ConfigService, generate_kube_config, get_kube_config_username,
  get_kube_config_name_prefix, identifying_name,
}
use zli.Kube.Entries.{named_entries, entry}
use zli.Kube.Merge.{IsMergedContext, merge_kube_config, merge_kube_config_lem, or_else}
use zli.Kube.Filter.{Runtime, FilterKubeConfigResult, filter_kube_config, arr_ports, is_some}
use zli.Kube.Outcome.{filtered, has_stale_entries, filter_kube_config_lem}

abbrev service : ConfigService
service = record { config_name = "prod"; email = "a@b.c" }

-- A runtime that knows the two servers of the test.
abbrev runtime : Runtime
runtime = record {
  new_url = λ text. resolved (record {
    protocol = "https:";
    port = if text == "https://localhost:1000" then "1000" else "";
  });
  number_to_string = λ n. if n == 1000 then "1000" else "2000";
}

abbrev own_context : Context
own_context = record { name = "mine"; cluster = "mine"; user = "me"; namespace = none }

abbrev own_cluster : Cluster
own_cluster = record { name = "mine"; server = "https://example.com"; skip_tls_verify = false }

abbrev own_config : KubeConfig
own_config = record {
  clusters = own_cluster ∷ [];
  users = record { name = "me"; token = "t" } ∷ [];
  contexts = own_context ∷ [];
  current_context = some "mine";
}

abbrev generated : KubeConfig
generated = record {
  clusters =
      record { name = "bzero-root@prod"; server = "https://localhost:1000"; skip_tls_verify = true }
      ∷ [];
  users = record { name = "bzero-a@b.c"; token = "t" } ∷ [];
  contexts =
      record {
        name = "bzero-root@prod";
        cluster = "bzero-root@prod";
        user = "bzero-a@b.c";
        namespace = none;
      }
      ∷ [];
  current_context = some "bzero-root@prod";
}

generates : generate_kube_config service "prod" "root" "1000" "t" none ≡ generated
unfolding generate_kube_config identifying_name get_kube_config_username get_kube_config_name_prefix
generates = refl

abbrev both : KubeConfig
both = record {
  clusters = own_cluster ∷ generated.clusters;
  users = record { name = "me"; token = "t" } ∷ generated.users;
  contexts = own_context ∷ generated.contexts;
  current_context = some "bzero-root@prod";
}

merge_kube_config_lem_example :
    (entry (λ (e : Cluster). e.name) "mine" (merge_kube_config own_config generated).clusters
      ≡ or_else
          (entry (λ (e : Cluster). e.name) "mine" generated.clusters)
          (entry (λ (e : Cluster). e.name) "mine" own_config.clusters))
    × (entry (λ (e : User). e.name) "mine" (merge_kube_config own_config generated).users
        ≡ or_else
            (entry (λ (e : User). e.name) "mine" generated.users)
            (entry (λ (e : User). e.name) "mine" own_config.users))
    × (entry (λ (e : Context). e.name) "mine" (merge_kube_config own_config generated).contexts
        ≡ or_else
            (entry (λ (e : Context). e.name) "mine" generated.contexts)
            (entry (λ (e : Context). e.name) "mine" own_config.contexts))
    × IsMergedContext own_config.current_context generated.current_context
        (merge_kube_config own_config generated).current_context
    × (merge_kube_config (merge_kube_config own_config generated) generated
        ≡ merge_kube_config own_config generated)
unfolding named_entries get
merge_kube_config_lem_example =
    merge_kube_config_lem own_config generated "mine" (refl, tt) (refl, tt) (refl, tt)

-- No daemon is stored: the generated entries are stale.
filter_kube_config_lem_example :
    (out : FilterKubeConfigResult) × (filter_kube_config runtime service [] (resolved []) both
      ≡ resolved out)
    × (out.filtered_kube_config
        ≡ filtered runtime service both
            (arr_ports runtime [])
            (is_some (find_running_daemon_with_predicate [] (λ _. true))))
    × (out.is_dirty
        ≡ has_stale_entries runtime service both
            (arr_ports runtime [])
            (is_some (find_running_daemon_with_predicate [] (λ _. true))))
unfolding named_entries get
filter_kube_config_lem_example =
    filter_kube_config_lem runtime service [] [] both (refl, (refl, tt)) (refl, (refl, tt))
      (refl, (refl, tt)) ((_, refl), ((_, refl), tt))
