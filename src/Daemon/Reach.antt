-- ===== src/Daemon/Reach.antt =====
-- The stores that the service can reach: what the theorems about it suppose of a store.
use zli.Prelude.{sym}
use zli.Prelude.{subst}
use zli.Prelude.{◌⊎◌}
use zli.Effect.{Settled-cases}
use zli.Prelude.{
  String, string_key, option_key, Bool, Option, none, some, List, [], ◌∷◌, ◌≡◌, refl, arith,
  Bool-cases, Option-cases, inl, inr,
}
use zli.Dict.Defs.{Dict, get, set, HasDistinctKeys}
use zli.Dict.Laws.{get-set, get-delete, set-HasDistinctKeys, delete-HasDistinctKeys}
use zli.Daemon.Config.{DaemonConfig}
use zli.Daemon.Store.{
  DaemonConfigs, legacy_key_string, add_daemon, store_key, delete_daemon, get_daemon_configs,
}
use zli.Daemon.Service.{
  ProcessManager, DaemonStatus, handle_daemon_status, get_daemon_status, statuses_from,
  get_all_daemon_statuses, DisconnectResult, process_results, disconnect_all_daemons, shut_down_all,
}

pub record IsWellFormed (daemons : DaemonConfigs) : Type 0 where
  pub distinct : HasDistinctKeys daemons
  pub named : get "" daemons ≡ none

add_daemon-IsWellFormed :
    (id : Option String) (c : DaemonConfig) (d : DaemonConfigs)
    → IsWellFormed d
    → IsWellFormed (add_daemon id c d).1
unfolding add_daemon
add_daemon-IsWellFormed none c d w = w
add_daemon-IsWellFormed (some id) c d w = elim (Bool-cases (string_key.equal id "")) [
  | inl empty ↦ rw empty w
  | inr named ↦ rw named (record {
    distinct = set-HasDistinctKeys id c d w.distinct;
    named = ground (arith, get-set id "" c d, w.named);
  })
]

delete_daemon-IsWellFormed :
    (id : Option String) (d : DaemonConfigs) → IsWellFormed d → IsWellFormed (delete_daemon id d)
unfolding delete_daemon
delete_daemon-IsWellFormed id d w = record {
  distinct = delete-HasDistinctKeys (store_key id) d w.distinct;
  named = ground (arith, get-delete (store_key id) "" d, w.named);
}

module _ (pm : ProcessManager) where
  stored_after :
      (id : Option String) (c : DaemonConfig) (remove : Bool) (d : DaemonConfigs)
      → ((handle_daemon_status pm id c remove d).1 ≡ d)
        ⊎ ((handle_daemon_status pm id c remove d).1 ≡ delete_daemon id d)
  unfolding handle_daemon_status
  stored_after id c remove d = ground arith

  handle_daemon_status-IsWellFormed :
      (id : Option String) (c : DaemonConfig) (remove : Bool) (d : DaemonConfigs)
      → IsWellFormed d
      → IsWellFormed (handle_daemon_status pm id c remove d).1
  handle_daemon_status-IsWellFormed id c remove d w = elim (stored_after id c remove d) [
    | inl kept ↦ subst IsWellFormed (sym kept) w
    | inr removed ↦ subst IsWellFormed (sym removed) (delete_daemon-IsWellFormed id d w)
  ]

  statuses_from-IsWellFormed :
      (remove : Bool) (entries : List (Option String × DaemonConfig))
      (result : Dict (Option String) DaemonStatus) (d : DaemonConfigs)
      → IsWellFormed d
      → IsWellFormed (statuses_from pm remove entries result d).1
  unfolding statuses_from
  statuses_from-IsWellFormed remove [] result d w = w
  statuses_from-IsWellFormed remove ((id, c) ∷ rest) result d w =
      let w' = handle_daemon_status-IsWellFormed id c remove d w in
      elim (Settled-cases (handle_daemon_status pm id c remove d).0) [
        | inl (status, e) ↦
            rw (e, statuses_from)
              (statuses_from-IsWellFormed remove rest (set id status result) _ w')
        | inr (failure, e) ↦ rw (e, statuses_from) w'
      ]

  process_results-IsWellFormed :
      (results : List (Option String × DisconnectResult))
      (result_map : Dict (Option String) DisconnectResult) (d : DaemonConfigs)
      → IsWellFormed d
      → IsWellFormed (process_results pm results result_map d).1
  unfolding process_results
  process_results-IsWellFormed [] result_map d w = w
  process_results-IsWellFormed ((id, r) ∷ rest) result_map d w =
      process_results-IsWellFormed rest _ (delete_daemon id d) (delete_daemon-IsWellFormed id d w)

-- One call of the service. The process manager may answer otherwise at every call.
pub data Step (d : DaemonConfigs) : DaemonConfigs → Type 0 where
  added : (id : Option String) (c : DaemonConfig) → Step d (add_daemon id c d).1
  asked :
      (pm : ProcessManager) (id : Option String) (remove : Bool)
      → Step d (get_daemon_status pm id remove d).1
  asked_all : (pm : ProcessManager) (remove : Bool) → Step d (get_all_daemon_statuses pm remove d).1
  disconnected : (pm : ProcessManager) → Step d (disconnect_all_daemons pm d).1

-- From no stored daemon, or from the one of a migrated configuration.
pub data Reach : DaemonConfigs → Type 0 where
  fresh : Reach []
  migrated : (c : DaemonConfig) → Reach ((legacy_key_string, c) ∷ [])
  next : {d d' : DaemonConfigs} → Reach d → Step d d' → Reach d'

get_daemon_status-IsWellFormed :
    (pm : ProcessManager) (id : Option String) (remove : Bool) (d : DaemonConfigs)
    → IsWellFormed d
    → IsWellFormed (get_daemon_status pm id remove d).1
unfolding get_daemon_status
get_daemon_status-IsWellFormed pm id remove d w =
    elim (Option-cases (get id (get_daemon_configs d))) [
      | inl missing ↦ rw (missing, get_daemon_status) w
      | inr (c, found) ↦
          rw (found, get_daemon_status) (handle_daemon_status-IsWellFormed pm id c remove d w)
    ]

Step-IsWellFormed : {d d' : DaemonConfigs} → Step d d' → IsWellFormed d → IsWellFormed d'
unfolding get_all_daemon_statuses disconnect_all_daemons
Step-IsWellFormed {d} (added id c) w = add_daemon-IsWellFormed id c d w
Step-IsWellFormed {d} (asked pm id remove) w = get_daemon_status-IsWellFormed pm id remove d w
Step-IsWellFormed {d} (asked_all pm remove) w =
    statuses_from-IsWellFormed pm remove (get_daemon_configs d) [] d w
Step-IsWellFormed {d} (disconnected pm) w =
    process_results-IsWellFormed pm (shut_down_all pm (get_daemon_configs d)) [] d w

migrated-IsWellFormed : (c : DaemonConfig) → IsWellFormed ((legacy_key_string, c) ∷ [])
unfolding get
migrated-IsWellFormed c = record { distinct = (refl, tt); named = refl }

fresh-IsWellFormed : IsWellFormed []
unfolding get
fresh-IsWellFormed = record { distinct = tt; named = refl }

-- In every store that calls of the service lead to, from no stored daemon or from the one of a
-- migrated configuration, no two keys are equal and none is empty, whatever processes run.
pub Reach-IsWellFormed : {d : DaemonConfigs} → Reach d → IsWellFormed d
Reach-IsWellFormed fresh = fresh-IsWellFormed
Reach-IsWellFormed (migrated c) = migrated-IsWellFormed c
Reach-IsWellFormed (next r step) = Step-IsWellFormed step (Reach-IsWellFormed r)
