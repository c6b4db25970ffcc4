-- ===== src/Daemon/Purge.antt =====
-- Deleting stored daemons in turn, while the loop runs over the entries that were stored.
use zli.Prelude.{false}
use zli.Prelude.{sym}
use zli.Prelude.{true}
use zli.Prelude.{◌∙◌}
use zli.Prelude.{
  String, string_key, option_key, Bool, not, Option, none, List, [], ◌∷◌, ◌≡◌, refl, ap, ◌≢◌, arith,
  eq_iff, eq_refl, if◌then◌else◌, filter, inl, inr, Bool-cases,
}
use zli.Dict.Defs.{get, delete, HasDistinctKeys}
use zli.Dict.Laws.{delete_of_none}
use zli.Daemon.Config.{DaemonConfig}
use zli.Daemon.Store.{DaemonConfigs, map_key, map_entries, store_key, delete_daemon}

-- The store holds no daemon under the empty id: `addDaemon` refuses it.
abbrev pub HasNoEmptyId : DaemonConfigs → Type 0
HasNoEmptyId d = get "" d ≡ none

store_key-map_key : (id : String) → id ≢ "" → store_key (map_key id) ≡ id
unfolding store_key map_key
store_key-map_key id h = ground (arith, eq_iff id "n/a", eq_iff id "")

-- What a loop leaves stored that deletes the entries for which `gone` holds.
unfoldable pub purge :
    (DaemonConfig → Bool) → List (Option String × DaemonConfig) → DaemonConfigs → DaemonConfigs
purge gone [] daemons = daemons
purge gone ((id, c) ∷ rest) daemons =
    purge gone rest (if gone c then delete_daemon id daemons else daemons)

get_tail :
    (k j : String) (w : DaemonConfig) (rest : DaemonConfigs)
    → get k ((j, w) ∷ rest) ≡ none
    → get k rest ≡ none
unfolding get
get_tail k j w rest h = ground arith

get-none_head :
    (k j : String) (w : DaemonConfig) (rest : DaemonConfigs) → get k ((j, w) ∷ rest) ≡ none → j ≢ k
unfolding get
get-none_head k j w rest h e = ground (arith, eq_iff j k)

delete_daemon-eq :
    (j : String) (d : DaemonConfigs) → j ≢ "" → delete_daemon (map_key j) d ≡ delete j d
unfolding delete_daemon
delete_daemon-eq j d h = rw (store_key-map_key j h)

delete-cons_ne :
    (j id : String) (c : DaemonConfig) (d : DaemonConfigs)
    → j ≢ id
    → delete j ((id, c) ∷ d) ≡ (id, c) ∷ delete j d
unfolding delete
delete-cons_ne j id c d h = ground (arith, eq_iff id j)

delete-cons_self :
    (j : String) (c : DaemonConfig) (d : DaemonConfigs) → get j d ≡ none → delete j ((j, c) ∷ d) ≡ d
unfolding delete
delete-cons_self j c d h = ground (arith, eq_refl j, delete_of_none j d)

delete_daemon-cons :
    (id : String) (c : DaemonConfig) (j : String) (w : DaemonConfig) (rest daemons : DaemonConfigs)
    → get id ((j, w) ∷ rest) ≡ none
    → get "" ((j, w) ∷ rest) ≡ none
    → delete_daemon (map_key j) ((id, c) ∷ daemons) ≡ (id, c) ∷ delete_daemon (map_key j) daemons
delete_daemon-cons id c j w rest daemons fresh ok =
    let named = get-none_head "" j w rest ok in
    delete_daemon-eq j ((id, c) ∷ daemons) named
    ∙ delete-cons_ne j id c daemons (get-none_head id j w rest fresh)
    ∙ ap (λ r. (id, c) ∷ r) (sym (delete_daemon-eq j daemons named))

delete_daemon_self :
    (j : String) (w : DaemonConfig) (rest : DaemonConfigs)
    → get j rest ≡ none
    → get "" ((j, w) ∷ rest) ≡ none
    → delete_daemon (map_key j) ((j, w) ∷ rest) ≡ rest
delete_daemon_self j w rest fresh ok =
    delete_daemon-eq j ((j, w) ∷ rest) (get-none_head "" j w rest ok)
    ∙ delete-cons_self j w rest fresh

module _ (gone : DaemonConfig → Bool) where
  purge-cons_step :
      (b : Bool) (j : String) (w : DaemonConfig) (rest daemons : DaemonConfigs)
      → gone w ≡ b
      → purge gone (map_entries ((j, w) ∷ rest)) daemons
        ≡ purge gone (map_entries rest) (if b then delete_daemon (map_key j) daemons else daemons)
  unfolding purge map_entries
  purge-cons_step b j w rest daemons h =
      ap
        (λ (x : Bool).
          purge gone (map_entries rest) (if x then delete_daemon (map_key j) daemons else daemons))
        h

  -- An entry whose id is not among the rest stays in front.
  purge-cons :
      (id : String) (c : DaemonConfig) (rest daemons : DaemonConfigs)
      → get id rest ≡ none
      → HasNoEmptyId rest
      → purge gone (map_entries rest) ((id, c) ∷ daemons)
        ≡ (id, c) ∷ purge gone (map_entries rest) daemons
  purge-cons id c [] daemons fresh ok = unfold purge map_entries in refl
  purge-cons id c ((j, w) ∷ rest) daemons fresh ok =
      let fresh' = get_tail id j w rest fresh in
      let ok' = get_tail "" j w rest ok in
      elim (Bool-cases (gone w)) [
        | inl dead ↦
            purge-cons_step true j w rest ((id, c) ∷ daemons) dead
            ∙ ap (purge gone (map_entries rest)) (delete_daemon-cons id c j w rest daemons fresh ok)
            ∙ purge-cons id c rest (delete_daemon (map_key j) daemons) fresh' ok'
            ∙ ap (λ r. (id, c) ∷ r) (sym (purge-cons_step true j w rest daemons dead))
        | inr alive ↦
            purge-cons_step false j w rest ((id, c) ∷ daemons) alive
            ∙ purge-cons id c rest daemons fresh' ok'
            ∙ ap (λ r. (id, c) ∷ r) (sym (purge-cons_step false j w rest daemons alive))
      ]

  -- The loop over all that is stored keeps exactly the daemons that are not gone, in order.
  pub purge_self :
      (d : DaemonConfigs)
      → HasDistinctKeys d
      → HasNoEmptyId d
      → purge gone (map_entries d) d ≡ filter (λ e. not (gone e.1)) d
  purge_self [] h ok = unfold purge map_entries in refl
  purge_self ((j, w) ∷ rest) (fresh, h) ok =
      let ok' = get_tail "" j w rest ok in
      elim (Bool-cases (gone w)) [
        | inl dead ↦
            purge-cons_step true j w rest ((j, w) ∷ rest) dead
            ∙ ap (purge gone (map_entries rest)) (delete_daemon_self j w rest fresh ok)
            ∙ purge_self rest h ok'
            ∙ rw dead
        | inr alive ↦
            purge-cons_step false j w rest ((j, w) ∷ rest) alive
            ∙ purge-cons j w rest rest fresh ok'
            ∙ ap (λ r. (j, w) ∷ r) (purge_self rest h ok')
            ∙ rw alive
      ]
