-- ===== src/Quickstart/Hosts/Readable.antt =====
-- The hosts whose key can be read.
use zli.Prelude.{
  String, string_key, Bool, true, false, filter, [], ◌∷◌, ◌≡◌, ◌∙◌, refl, arith, none, inl, inr,
  Bool-cases,
}
use zli.Dict.Defs.{Dict, get, set, set_all, HasDistinctKeys}
use zli.Dict.Bulk.{set_all_of_distinct}
use zli.Effect.{Settled-cases, Settled, resolved, rejected}
use zli.Quickstart.Hosts.{ValidSshHost, readable_hosts, get_ssh_hosts_with_valid_ssh_keys}

abbrev pub is_resolved {ℓ} : {A : Type ℓ} → Settled A → Bool
is_resolved (resolved a) = true
is_resolved (rejected failure) = false

module _ (p : String × ValidSshHost → Bool) where
  filter-none :
      (k : String) (d : Dict String ValidSshHost) → get k d ≡ none → get k (filter p d) ≡ none
  unfolding get
  filter-none k [] h = refl
  filter-none k ((j, v) ∷ d) h = ground (arith, filter-none k d)

  filter-HasDistinctKeys :
      (d : Dict String ValidSshHost) → HasDistinctKeys d → HasDistinctKeys (filter p d)
  filter-HasDistinctKeys [] h = tt
  filter-HasDistinctKeys ((j, v) ∷ d) (fresh, h) = elim (Bool-cases (p (j, v))) [
    | inl e ↦ rw e (filter-none j d fresh, filter-HasDistinctKeys d h)
    | inr e ↦ rw e (filter-HasDistinctKeys d h)
  ]

module _ (read_file : String → Settled String) where
  abbrev pub is_readable : String × ValidSshHost → Bool
  is_readable (name, host) = is_resolved (read_file host.identity_file)

  readable_hosts-set_all :
      (hosts valid : Dict String ValidSshHost)
      → readable_hosts read_file hosts valid ≡ set_all valid (filter is_readable hosts)
  unfolding readable_hosts set_all
  readable_hosts-set_all [] valid = refl
  readable_hosts-set_all ((name, host) ∷ rest) valid =
      elim (Settled-cases (read_file host.identity_file)) [
        | inl (text, e) ↦ rw e (readable_hosts-set_all rest (set name host valid))
        | inr (failure, e) ↦ rw e (readable_hosts-set_all rest valid)
      ]

  -- For a map of hosts, the hosts that are left are those whose key file can be read, in order.
  pub get_ssh_hosts_with_valid_ssh_keys_lem :
      (hosts : Dict String ValidSshHost)
      → HasDistinctKeys hosts
      → get_ssh_hosts_with_valid_ssh_keys read_file hosts ≡ filter is_readable hosts
  unfolding get_ssh_hosts_with_valid_ssh_keys
  get_ssh_hosts_with_valid_ssh_keys_lem hosts h =
      readable_hosts-set_all hosts []
      ∙ set_all_of_distinct (filter is_readable hosts) (filter-HasDistinctKeys is_readable hosts h)
