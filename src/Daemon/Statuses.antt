-- ===== src/Daemon/Statuses.antt =====
-- `getAllDaemonStatuses` against a description of each daemon on its own.
use zli.Prelude.{
  String, string_key, option_key, Bool, true, false, not, ◌&&◌, Option, none, some, List, [], ◌∷◌,
  ◌≡◌, refl, ap, ap₂, ◌∙◌, ap, arith, if◌then◌else◌, filter, all,
}
use zli.Dict.Defs.{Dict, get, set, set_all, HasDistinctKeys}
use zli.Dict.Bulk.{set_all_of_distinct}
use zli.Effect.{resolved}
use zli.Daemon.Config.{
  DaemonConfig, web_config, db_config, rdp_config, sqlserver_config, kube_config, base,
}
use zli.Daemon.Store.{DaemonConfigs, map_entries, map_key, delete_daemon}
use zli.Daemon.Service.{
  ProcessManager, DaemonRunningStatus, web_status, db_status, rdp_status, sqlserver_status,
  kube_status, DaemonStatus, no_daemon_running, daemon_quit_unexpectedly, daemon_is_running, join,
  local_url, running_status, handle_daemon_status, statuses_from, get_all_daemon_statuses,
}
use zli.Daemon.Lookup.{get_daemon_configs-eq, map_entries-HasDistinctKeys}
use zli.Daemon.Purge.{HasNoEmptyId, purge, purge_self}

-- A kube configuration that has its target groups, as the connect handler stores it.
unfoldable pub has_groups : DaemonConfig → Bool
has_groups (kube_config b k) = elim k.target_groups [ none ↦ false | some groups ↦ true ]
has_groups _ = true

groups_text : Option (List String) → String
groups_text none = ""
groups_text (some groups) = join "," groups

-- What a running daemon's status shows of its configuration.
unfoldable pub shown : DaemonConfig → DaemonRunningStatus
unfolding groups_text
shown (web_config b name) = web_status name (local_url b)
shown (db_config b name) = db_status name (local_url b)
shown (rdp_config b name) = rdp_status name (local_url b)
shown (sqlserver_config b name) = sqlserver_status name (local_url b)
shown (kube_config b k) =
    kube_status (local_url b) k.target_cluster k.target_user (groups_text k.target_groups)

module _ (pm : ProcessManager) where
  -- The daemon has a process id and that process runs.
  unfoldable pub alive : DaemonConfig → Bool
  alive c = elim (base c).local_pid [ none ↦ false | some pid ↦ pm.is_process_running pid ]

  unfoldable pub status_of : Option String → DaemonConfig → DaemonStatus
  status_of id c = elim (base c).local_pid [
    | none ↦ no_daemon_running id c
    | some pid ↦
        if pm.is_process_running pid
        then daemon_is_running id c (shown c)
        else daemon_quit_unexpectedly id c
  ]

  unfoldable pub statuses_of :
      List (Option String × DaemonConfig) → List (Option String × DaemonStatus)
  statuses_of [] = []
  statuses_of ((id, c) ∷ rest) = (id, status_of id c) ∷ statuses_of rest

  pub stale : Bool → DaemonConfig → Bool
  stale remove c = remove && not (alive c)

running_status-shown :
    (c : DaemonConfig) → has_groups c ≡ true → running_status c ≡ resolved (shown c)
unfolding running_status shown has_groups
running_status-shown (web_config b name) h = refl
running_status-shown (kube_config b k) h = ground arith
running_status-shown _ h = refl

module _ (pm : ProcessManager) where
  handle_daemon_status_lem :
      (remove : Bool) (id : Option String) (c : DaemonConfig) (daemons : DaemonConfigs)
      → has_groups c ≡ true
      → handle_daemon_status pm id c remove daemons ≡ (
        resolved (status_of pm id c),
        if stale pm remove c then delete_daemon id daemons else daemons,
      )
  unfolding handle_daemon_status status_of stale alive
  handle_daemon_status_lem remove id c daemons h = ground (arith, running_status-shown c h)

  statuses_from-cons :
      (remove : Bool) (id : Option String) (c : DaemonConfig)
      (rest : List (Option String × DaemonConfig)) (result : Dict (Option String) DaemonStatus)
      (daemons : DaemonConfigs) {status : DaemonStatus} {daemons' : DaemonConfigs}
      → handle_daemon_status pm id c remove daemons ≡ (resolved status, daemons')
      → statuses_from pm remove ((id, c) ∷ rest) result daemons
        ≡ statuses_from pm remove rest (set id status result) daemons'
  unfolding statuses_from
  statuses_from-cons remove id c rest result daemons h = ground arith

  statuses_from_lem :
      (remove : Bool) (entries : DaemonConfigs) (result : Dict (Option String) DaemonStatus)
      (daemons : DaemonConfigs)
      → all (λ e. has_groups e.1) entries ≡ true
      → statuses_from pm remove (map_entries entries) result daemons ≡ (
        resolved (set_all result (statuses_of pm (map_entries entries))),
        purge (stale pm remove) (map_entries entries) daemons,
      )
  unfolding statuses_from statuses_of purge set_all map_entries
  statuses_from_lem remove [] result daemons h = refl
  statuses_from_lem remove ((id, c) ∷ rest) result daemons h =
      let here : has_groups c ≡ true = ground arith in
      let later : all (λ e. has_groups e.1) rest ≡ true = ground arith in
      statuses_from-cons remove (map_key id) c (map_entries rest) result daemons
        (handle_daemon_status_lem remove (map_key id) c daemons here)
      ∙ (statuses_from_lem remove rest (set (map_key id) (status_of pm (map_key id) c) result)
          (if stale pm remove c then delete_daemon (map_key id) daemons else daemons) later)

  statuses_of-get-none :
      (k : Option String) (entries : List (Option String × DaemonConfig))
      → get k entries ≡ none
      → get k (statuses_of pm entries) ≡ none
  unfolding get statuses_of
  statuses_of-get-none k [] h = refl
  statuses_of-get-none k ((id, c) ∷ rest) h = ground (arith, statuses_of-get-none k rest)

  statuses_of-HasDistinctKeys :
      (entries : List (Option String × DaemonConfig))
      → HasDistinctKeys entries
      → HasDistinctKeys (statuses_of pm entries)
  unfolding statuses_of
  statuses_of-HasDistinctKeys [] h = tt
  statuses_of-HasDistinctKeys ((id, c) ∷ rest) (fresh, h) =
      (statuses_of-get-none id rest fresh, statuses_of-HasDistinctKeys rest h)

purge-stale :
    (pm : ProcessManager) (remove : Bool) (daemons : DaemonConfigs)
    → HasDistinctKeys daemons
    → HasNoEmptyId daemons
    → purge (stale pm remove) (map_entries daemons) daemons
      ≡ filter (λ e. not (remove && not (alive pm e.1))) daemons
unfolding stale
purge-stale pm remove daemons distinct named = purge_self (stale pm remove) daemons distinct named

-- When every stored kube daemon has its target groups, no two keys are equal and no id is empty,
-- `getAllDaemonStatuses` returns the status of each stored daemon, in order, under its map key; it
-- leaves stored exactly the daemons whose process runs if it is to remove the others, and all of
-- them if it is not.
pub get_all_daemon_statuses_lem :
    (pm : ProcessManager) (remove : Bool) (daemons : DaemonConfigs)
    → HasDistinctKeys daemons
    → HasNoEmptyId daemons
    → all (λ e. has_groups e.1) daemons ≡ true
    → get_all_daemon_statuses pm remove daemons ≡ (
      resolved (statuses_of pm (map_entries daemons)),
      filter (λ e. not (remove && not (alive pm e.1))) daemons,
    )
unfolding get_all_daemon_statuses
get_all_daemon_statuses_lem pm remove daemons distinct named groups =
    ap (λ entries. statuses_from pm remove entries [] daemons)
      (get_daemon_configs-eq daemons distinct)
    ∙ statuses_from_lem pm remove daemons [] daemons groups
    ∙ ap₂ (λ m d. (resolved m, d))
        (set_all_of_distinct (statuses_of pm (map_entries daemons)) (
          statuses_of-HasDistinctKeys pm (map_entries daemons)
            (map_entries-HasDistinctKeys daemons distinct)))
        (purge-stale pm remove daemons distinct named)
