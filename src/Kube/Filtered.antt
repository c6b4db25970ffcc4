-- ===== src/Kube/Filtered.antt =====
-- The names that the loop of `filterKubeConfig` collects, as tests on the lists of the config.
use zli.Prelude.{
  String, string_key, option_key, ◌==◌, Bool, false, not, ◌&&◌, ◌||◌, none, some, List, [], ◌∷◌,
  ◌≡◌, refl, sym, ap, ◌∙◌, fun_ext, arith, eq_iff, any, find_sound, filter, inl, inr, Option-cases,
}
use zli.Dict.Defs.{get, values}
use zli.Effect.{Settled, resolved}
use zli.Kube.Config.{Cluster, Context, ConfigService}
use zli.Kube.Entries.{named_entries, HasDistinctNames, values-named_entries, get-named_entries}
use zli.Kube.Filter.{Runtime, delete_all, is_empty, stale_names}
use zli.Kube.Stale.{
  is_stale, refers_to, stale_names_lem, delete_all-named_entries, own, named_and, filter_same,
}

module _ {ℓ} {T : Type ℓ} (name : T → String) where
  any-named_entries :
      (f : String → T → Bool) (xs : List T)
      → any (λ e. f e.0 e.1) (named_entries name xs) ≡ any (λ y. f (name y) y) xs
  unfolding named_entries
  any-named_entries f [] = refl
  any-named_entries f (x ∷ xs) = ap (λ b. f (name x) x || b) (any-named_entries f xs)

  pub values-delete_all :
      (names : List String) (xs : List T)
      → values (delete_all names (named_entries name xs))
        ≡ filter (λ e. not (any (λ n. n == name e) names)) xs
  values-delete_all names xs =
      ap values (delete_all-named_entries name names xs) ∙ values-named_entries name _

any_same : {A : Type 0} (f g : A → Bool) (xs : List A) → ((x : A) → f x ≡ g x) → any f xs ≡ any g xs
any_same f g xs h = ap (λ p. any p xs) (fun_ext h)

module _ (r : Runtime) (s : ConfigService) (clusters : List Cluster) (contexts : List Context)
    (ports : List String) where
  abbrev pub stale : Context → Bool
  stale = is_stale r s (named_entries (λ (e : Cluster). e.name) clusters) ports

  refers_at :
      (n : String) (c : Context) (cluster : Cluster)
      → get c.cluster (named_entries (λ (e : Cluster). e.name) clusters) ≡ some cluster
      → refers_to r s (named_entries (λ (e : Cluster). e.name) clusters) ports n c
        ≡ (cluster.name == n)
  refers_at n c cluster at = ground arith

  stale_of_absent :
      (c : Context)
      → get c.cluster (named_entries (λ (e : Cluster). e.name) clusters) ≡ none
      → stale c ≡ false
  unfolding is_stale
  stale_of_absent c absent = ground arith

  refers_by_name :
      (n : String) (c : Context)
      → (stale c && refers_to r s (named_entries (λ (e : Cluster). e.name) clusters) ports n c)
        ≡ (stale c && c.cluster == n)
  refers_by_name n c =
      elim (Option-cases (get c.cluster (named_entries (λ (e : Cluster). e.name) clusters))) [
        | inl absent ↦ ground (arith, stale_of_absent c absent)
        | inr (cluster, at) ↦
            let named = (eq_iff cluster.name c.cluster).0 (
              find_sound (λ (e : Cluster). e.name == c.cluster) clusters
                (sym (get-named_entries (λ (e : Cluster). e.name) c.cluster clusters) ∙ at)) in
            ap (λ b. stale c && b) (refers_at n c cluster at ∙ ap (λ x. x == n) named)
      ]

  abbrev pub found : Settled (List String × List String)
  found =
      stale_names r s (named_entries (λ (e : Cluster). e.name) clusters) ports
        (named_entries (λ (e : Context). e.name) contexts) [] []

  pub contexts_left :
      (xs ks : List String)
      → found ≡ resolved (xs, ks)
      → HasDistinctNames (λ (e : Context). e.name) contexts
      → filter (λ (e : Context). not (any (λ n. n == e.name) xs)) contexts
        ≡ filter (λ c. not (stale c)) contexts
  contexts_left xs ks h distinct =
      ap (λ p. filter (λ e. not (p e)) contexts)
        (fun_ext (λ (e : Context).
          (stale_names_lem r s (named_entries (λ (e : Cluster). e.name) clusters) ports e.name
            (named_entries (λ (e : Context). e.name) contexts) [] [] xs ks h).0
          ∙ any-named_entries (λ (e : Context). e.name) (λ n y. stale y && n == e.name) contexts))
      ∙ filter_same (λ (e : Context). e.name) (named_and (λ (e : Context). e.name) stale contexts)
          stale contexts (own (λ (e : Context). e.name) stale contexts distinct)

  pub clusters_left :
      (xs ks : List String)
      → found ≡ resolved (xs, ks)
      → filter (λ (e : Cluster). not (any (λ n. n == e.name) ks)) clusters
        ≡ filter
            (λ (e : Cluster). not (any (λ c. stale c && c.cluster == e.name) contexts))
            clusters
  clusters_left xs ks h =
      ap (λ p. filter (λ e. not (p e)) clusters)
        (fun_ext (λ (e : Cluster).
          (stale_names_lem r s (named_entries (λ (e : Cluster). e.name) clusters) ports e.name
            (named_entries (λ (e : Context). e.name) contexts) [] [] xs ks h).1
          ∙ any-named_entries (λ (e : Context). e.name)
              (λ n y.
                stale y
                && refers_to r s (named_entries (λ (e : Cluster). e.name) clusters) ports e.name y)
              contexts
          ∙ any_same _ _ contexts (refers_by_name e.name)))

  pub any_left :
      (xs ks : List String)
      → found ≡ resolved (xs, ks)
      → (not (is_empty xs) ≡ any stale contexts) × (not (is_empty ks) ≡ any stale contexts)
  any_left xs ks h =
      let l =
        stale_names_lem r s (named_entries (λ (e : Cluster). e.name) clusters) ports ""
          (named_entries (λ (e : Context). e.name) contexts) [] [] xs ks h in
      (
        l.2 ∙ any-named_entries (λ (e : Context). e.name) (λ n y. stale y) contexts,
        l.3 ∙ any-named_entries (λ (e : Context). e.name) (λ n y. stale y) contexts,
      )
