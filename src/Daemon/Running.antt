-- ===== src/Daemon/Running.antt =====
-- The searches for a running daemon, over the statuses of a store.
use zli.Prelude.{
  String, string_key, option_key, Bool, true, false, ◌&&◌, Option, none, some, List, [], ◌∷◌, ◌++◌,
  ◌≡◌, refl, ap, ◌∙◌, arith, if◌then◌else◌, filter, find, all, same_option_iff, append-nil,
  append_assoc, Bool-cases, inl, inr,
}
use zli.Dict.Defs.{Dict, get, values, HasDistinctKeys}
use zli.Effect.{resolved}
use zli.Daemon.Config.{DaemonConfig}
use zli.Daemon.Store.{DaemonConfigs, map_key, map_entries}
use zli.Daemon.Service.{
  ProcessManager, DaemonStatus, is_running, get_all_daemon_statuses,
  find_running_daemon_with_connection_id, get_all_running_daemons_from, get_all_running_daemons,
  find_running_daemon_with_predicate,
}
use zli.Daemon.Lookup.{get-map_entries, map_entries-HasDistinctKeys}
use zli.Daemon.Purge.{HasNoEmptyId}
use zli.Daemon.Statuses.{alive, status_of, statuses_of, has_groups, get_all_daemon_statuses_lem}

-- The status of a stored daemon, if its process runs.
abbrev pub running_of : ProcessManager → Option String → Option DaemonConfig → Option DaemonStatus
running_of pm id none = none
running_of pm id (some c) = if alive pm c then some (status_of pm id c) else none

find_none :
    (pm : ProcessManager) (id : Option String) (entries : List (Option String × DaemonConfig))
    → get id entries ≡ none
    → find_running_daemon_with_connection_id (statuses_of pm entries) id ≡ none
unfolding find_running_daemon_with_connection_id statuses_of get
find_none pm id [] h = refl
find_none pm id ((j, c) ∷ rest) h = ground (arith, find_none pm id rest)

find-statuses_of :
    (pm : ProcessManager) (id : Option String) (entries : List (Option String × DaemonConfig))
    → HasDistinctKeys entries
    → find_running_daemon_with_connection_id (statuses_of pm entries) id
      ≡ running_of pm id (get id entries)
unfolding find_running_daemon_with_connection_id statuses_of status_of alive get
find-statuses_of pm id [] h = refl
find-statuses_of pm id ((j, c) ∷ rest) (fresh, h) =
    ground (arith, same_option_iff j id, find-statuses_of pm id rest h, find_none pm id rest)

filter_all : (daemons : DaemonConfigs) → filter (λ _. true) daemons ≡ daemons
filter_all [] = refl
filter_all (e ∷ daemons) = ap (λ r. e ∷ r) (filter_all daemons)

-- Looking for the running daemon of a connection gives the status of the daemon stored for it if
-- that daemon's process runs, and nothing otherwise; the search leaves the stored daemons as they
-- are. The map of the statuses is the one that `getAllDaemonStatuses(false)` returns for a store
-- with distinct, nonempty ids whose kube daemons have target groups.
pub find_running_daemon_with_connection_id_lem :
    (pm : ProcessManager) (daemons daemons' : DaemonConfigs)
    (statuses : Dict (Option String) DaemonStatus) (id : String)
    → HasDistinctKeys daemons
    → HasNoEmptyId daemons
    → all (λ e. has_groups e.1) daemons ≡ true
    → get_all_daemon_statuses pm false daemons ≡ (resolved statuses, daemons')
    → (find_running_daemon_with_connection_id statuses (map_key id)
        ≡ running_of pm (map_key id) (get id daemons))
      × (daemons' ≡ daemons)
find_running_daemon_with_connection_id_lem pm daemons daemons' statuses id distinct named groups h =
    let lem = get_all_daemon_statuses_lem pm false daemons distinct named groups in
    let same : statuses ≡ statuses_of pm (map_entries daemons) = cc in
    let kept : daemons' ≡ filter (λ _. true) daemons = cc in
    (
      ap (λ m. find_running_daemon_with_connection_id m (map_key id)) same
          ∙ find-statuses_of pm (map_key id) (map_entries daemons)
              (map_entries-HasDistinctKeys daemons distinct)
          ∙ ap (running_of pm (map_key id)) (get-map_entries id daemons),
      kept ∙ filter_all daemons,
    )

get_all_running_daemons_from_lem :
    (acc rest : List DaemonStatus)
    → get_all_running_daemons_from acc rest ≡ acc ++ filter is_running rest
unfolding get_all_running_daemons_from
get_all_running_daemons_from_lem acc [] = simp append-nil
get_all_running_daemons_from_lem acc (s ∷ rest) = elim (Bool-cases (is_running s)) [
  | inl yes_running ↦ rw yes_running (
      get_all_running_daemons_from_lem (acc ++ s ∷ []) rest
      ∙ append_assoc acc (s ∷ []) (filter is_running rest))
  | inr not_running ↦ rw not_running (get_all_running_daemons_from_lem acc rest)
]

find-filter :
    (p q : DaemonStatus → Bool) (l : List DaemonStatus)
    → find p (filter q l) ≡ find (λ s. q s && p s) l
find-filter p q [] = refl
find-filter p q (s ∷ l) = ground (arith, find-filter p q l)

-- Searching the running daemons by a predicate gives the first status in the map that is a running
-- one and satisfies the predicate.
find_running_daemon_with_predicate_lem :
    (statuses : Dict (Option String) DaemonStatus) (p : DaemonStatus → Bool)
    → find_running_daemon_with_predicate statuses p
      ≡ find (λ s. is_running s && p s) (values statuses)
unfolding find_running_daemon_with_predicate get_all_running_daemons
find_running_daemon_with_predicate_lem statuses p =
    ap (find p) (get_all_running_daemons_from_lem [] (values statuses))
    ∙ find-filter p is_running (values statuses)
