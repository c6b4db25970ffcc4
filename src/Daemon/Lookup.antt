-- ===== src/Daemon/Lookup.antt =====
-- The map of `getDaemonConfigs` against the stored dictionary.
use zli.Prelude.{
  subst, String, string_key, option_key, ◌==◌, Bool, true, false, none, some, List, [], ◌∷◌, ◌≡◌,
  refl, ◌∙◌, ap, sym, arith, eq_iff, if◌then◌else◌,
}
use zli.Dict.Defs.{get, HasDistinctKeys}
use zli.Dict.Bulk.{set_all_of_distinct}
use zli.Daemon.Store.{DaemonConfigs, map_key, map_entries, get_daemon_configs, legacy_key_string}

-- `getDaemonConfigs` confuses no two stored ids.
==-map_key : (i j : String) → (map_key i == map_key j) ≡ (i == j)
unfolding map_key
==-map_key i j = ground (arith, eq_iff i "n/a", eq_iff j "n/a", eq_iff i j)

pub get-map_entries {ℓ} :
    {V : Type ℓ} (j : String) (d : List (String × V)) → get (map_key j) (map_entries d) ≡ get j d
unfolding get map_entries
get-map_entries j [] = refl
get-map_entries j ((i, c) ∷ d) = ground (arith, ==-map_key i j, get-map_entries j d)

pub map_entries-HasDistinctKeys {ℓ} :
    {V : Type ℓ} (d : List (String × V)) → HasDistinctKeys d → HasDistinctKeys (map_entries d)
unfolding map_entries
map_entries-HasDistinctKeys [] h = tt
map_entries-HasDistinctKeys ((i, c) ∷ d) (fresh, h) =
    (get-map_entries i d ∙ fresh, map_entries-HasDistinctKeys d h)

-- The map has the stored entries, in their order.
pub get_daemon_configs-eq :
    (d : DaemonConfigs) → HasDistinctKeys d → get_daemon_configs d ≡ map_entries d
unfolding get_daemon_configs
get_daemon_configs-eq d h = set_all_of_distinct (map_entries d) (map_entries-HasDistinctKeys d h)

no_legacy_key {ℓ} :
    {V : Type ℓ} (d : List (String × V)) → get (some legacy_key_string) (map_entries d) ≡ none
unfolding get map_entries map_key
no_legacy_key [] = refl
no_legacy_key ((i, c) ∷ d) = ground (arith, eq_iff i "n/a", no_legacy_key d)

map_key_legacy : map_key legacy_key_string ≡ none
unfolding map_key
map_key_legacy = refl

map_key_other : (id : String) → (id == legacy_key_string) ≡ false → map_key id ≡ some id
unfolding map_key
map_key_other id h = rw h

get-some :
    (id : String) (d : DaemonConfigs) (b : Bool)
    → (id == legacy_key_string) ≡ b
    → get (some id) (map_entries d) ≡ (if b then none else get id d)
get-some id d true h =
    ap (λ (k : String). get (some k) (map_entries d)) ((eq_iff id legacy_key_string).0 h)
    ∙ no_legacy_key d
get-some id d false h =
    ap (λ k. get k (map_entries d)) (sym (map_key_other id h)) ∙ get-map_entries id d

-- Of a store whose keys are distinct, the map holds the daemon stored under "n/a" at the undefined
-- key and every other stored daemon at its own connection id; the id "n/a" itself is no key of it.
get-get_daemon_configs :
    (d : DaemonConfigs) (id : String)
    → HasDistinctKeys d
    → (get none (get_daemon_configs d) ≡ get legacy_key_string d)
      × (get (some id) (get_daemon_configs d)
          ≡ (if id == legacy_key_string then none else get id d))
get-get_daemon_configs d id h = rw (get_daemon_configs-eq d h) (
  subst (λ k. get k (map_entries d) ≡ get legacy_key_string d) map_key_legacy
      (get-map_entries legacy_key_string d),
  get-some id d (id == legacy_key_string) refl,
)
