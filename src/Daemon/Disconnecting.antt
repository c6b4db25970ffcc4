-- ===== src/Daemon/Disconnecting.antt =====
-- `disconnectAllDaemons`, and the handler of `zli disconnect` over its results.
use zli.Prelude.{not}
use zli.Prelude.{filter}
use zli.Prelude.{
  String, string_key, option_key, true, Option, none, List, [], ◌∷◌, ◌≡◌, refl, ap, ap₂, ◌∙◌, arith,
}
use zli.Dict.Defs.{Dict, get, set_all, HasDistinctKeys}
use zli.Dict.Bulk.{set_all_of_distinct}
use zli.Daemon.Config.{DaemonConfig}
use zli.Daemon.Store.{DaemonConfigs, map_entries}
use zli.Daemon.Service.{
  ProcessManager, DisconnectResult, shut_down_all, process_results, disconnect_all_daemons,
}
use zli.Daemon.Lookup.{get_daemon_configs-eq, map_entries-HasDistinctKeys}
use zli.Daemon.Purge.{HasNoEmptyId, purge, purge_self}

module _ (pm : ProcessManager) where
  process_results_lem :
      (entries : List (Option String × DaemonConfig))
      (result_map : Dict (Option String) DisconnectResult) (daemons : DaemonConfigs)
      → process_results pm (shut_down_all pm entries) result_map daemons
        ≡ (set_all result_map (shut_down_all pm entries), purge (λ _. true) entries daemons)
  unfolding process_results shut_down_all set_all purge
  process_results_lem [] result_map daemons = refl
  process_results_lem ((id, c) ∷ rest) result_map daemons = process_results_lem rest _ _

  shut_down_all-get-none :
      (k : Option String) (entries : List (Option String × DaemonConfig))
      → get k entries ≡ none
      → get k (shut_down_all pm entries) ≡ none
  unfolding get shut_down_all
  shut_down_all-get-none k [] h = refl
  shut_down_all-get-none k ((id, c) ∷ rest) h = ground (arith, shut_down_all-get-none k rest)

  shut_down_all-HasDistinctKeys :
      (entries : List (Option String × DaemonConfig))
      → HasDistinctKeys entries
      → HasDistinctKeys (shut_down_all pm entries)
  unfolding shut_down_all
  shut_down_all-HasDistinctKeys [] h = tt
  shut_down_all-HasDistinctKeys ((id, c) ∷ rest) (fresh, h) =
      (shut_down_all-get-none id rest fresh, shut_down_all-HasDistinctKeys rest h)

purge_all :
    (daemons : DaemonConfigs)
    → HasDistinctKeys daemons
    → HasNoEmptyId daemons
    → purge (λ _. true) (map_entries daemons) daemons ≡ []
purge_all daemons distinct named = purge_self (λ _. true) daemons distinct named ∙ nothing daemons
  where
    nothing : (d : DaemonConfigs) → filter (λ e. not true) d ≡ []
    nothing [] = refl
    nothing (e ∷ d) = nothing d

-- With distinct and nonempty ids, `disconnectAllDaemons` leaves no daemon stored, whatever the
-- attempts to shut them down gave, and returns one result for each stored daemon, in order, under
-- its map key.
pub disconnect_all_daemons_lem :
    (pm : ProcessManager) (daemons : DaemonConfigs)
    → HasDistinctKeys daemons
    → HasNoEmptyId daemons
    → disconnect_all_daemons pm daemons ≡ (shut_down_all pm (map_entries daemons), [])
unfolding disconnect_all_daemons
disconnect_all_daemons_lem pm daemons distinct named =
    ap (λ entries. process_results pm (shut_down_all pm entries) [] daemons)
      (get_daemon_configs-eq daemons distinct)
    ∙ process_results_lem pm (map_entries daemons) [] daemons
    ∙ ap₂ (λ m d. (m, d))
        (set_all_of_distinct (shut_down_all pm (map_entries daemons)) (
          shut_down_all-HasDistinctKeys pm (map_entries daemons)
            (map_entries-HasDistinctKeys daemons distinct)))
        (purge_all daemons distinct named)
