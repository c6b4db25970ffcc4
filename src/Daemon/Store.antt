-- ===== src/Daemon/Store.antt =====
-- The stored daemons: `getDaemonConfigs`, `addDaemon` and `deleteDaemon`.
use zli.Prelude.{
  String, string_key, option_key, ◌==◌, Option, none, some, List, [], ◌∷◌, if◌then◌else◌,
}
use zli.Dict.Defs.{Dict, set, delete, set_all}
use zli.Effect.{Settled, resolved, rejected, error}
use zli.Daemon.Config.{DaemonConfig}

abbrev pub DaemonConfigs : Type 0
DaemonConfigs = Dict String DaemonConfig

-- `Map<string | undefined, T>`: `none` is the key of a configuration without a connection id.
abbrev pub DaemonMap : Type 0
DaemonMap = Dict (Option String) DaemonConfig

abbrev pub legacy_key_string : String
legacy_key_string = "n/a"

-- The key of the map under which `getDaemonConfigs` puts the daemon stored as `conn_id`.
unfoldable pub map_key : String → Option String
map_key conn_id = if conn_id == legacy_key_string then none else some conn_id

unfoldable pub map_entries {ℓ} : {V : Type ℓ} → List (String × V) → List (Option String × V)
map_entries [] = []
map_entries ((conn_id, v) ∷ rest) = (map_key conn_id, v) ∷ map_entries rest

unfoldable pub get_daemon_configs : DaemonConfigs → DaemonMap
get_daemon_configs daemons = set_all [] (map_entries daemons)

-- `!connectionId` holds of `undefined` and of the empty text.
unfoldable pub add_daemon :
    Option String → DaemonConfig → DaemonConfigs → Settled (Unit {0}) × DaemonConfigs
add_daemon none config daemons =
    (rejected (error "Cannot add a daemon to local store if connection ID is undefined"), daemons)
add_daemon (some connection_id) config daemons =
    if connection_id == ""
    then (
      rejected (error "Cannot add a daemon to local store if connection ID is undefined"),
      daemons,
    )
    else (resolved tt, set connection_id config daemons)

-- The key of the store that `deleteDaemon` deletes.
unfoldable pub store_key : Option String → String
store_key none = legacy_key_string
store_key (some connection_id) = if connection_id == "" then legacy_key_string else connection_id

unfoldable pub delete_daemon : Option String → DaemonConfigs → DaemonConfigs
delete_daemon connection_id daemons = delete (store_key connection_id) daemons
