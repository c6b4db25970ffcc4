-- ===== src/Kube/Stale.antt =====
-- `filterKubeConfig` removes exactly the stale entries.
use zli.Prelude.{Option-cases}
use zli.Prelude.{
  String, string_key, ◌==◌, Bool, true, false, not, ◌&&◌, ◌||◌, none, some, List, [], ◌∷◌, ◌++◌,
  ◌≡◌, refl, sym, ap, ◌∙◌, subst, arith, eq_iff, eq_refl, any, filter, All, inl, inr, Bool-cases,
}
use zli.Dict.Defs.{Dict, get, delete}
use zli.Effect.{resolved, rejected}
use zli.Kube.Config.{Cluster, Context, ConfigService, is_kube_context_bastion_zero}
use zli.Kube.Entries.{named_entries, HasDistinctNames}
use zli.Kube.Filter.{Runtime, add, delete_all, is_empty, get_port_from_cluster_server, stale_names}

any-append_last :
    (n x : String) (xs : List String)
    → any (λ y. y == n) (xs ++ x ∷ []) ≡ (any (λ y. y == n) xs || x == n)
any-append_last n x [] = ground arith
any-append_last n x (y ∷ xs) = ground (arith, any-append_last n x xs)

absorbed :
    (n x : String) (xs : List String)
    → any (λ y. y == x) xs ≡ true
    → x ≡ n
    → any (λ y. y == n) xs ≡ true
absorbed n x xs h e = subst (λ m. any (λ y. y == m) xs ≡ true) e h

any-add :
    (n x : String) (xs : List String)
    → any (λ y. y == n) (add x xs) ≡ (any (λ y. y == n) xs || x == n)
unfolding add
any-add n x xs = elim (Bool-cases (any (λ y. y == x) xs)) [
  | inl there ↦ ground (arith, absorbed n x xs there, eq_iff x n)
  | inr absent ↦ rw absent (any-append_last n x xs)
]

is_empty-append_last : (x : String) (xs : List String) → is_empty (xs ++ x ∷ []) ≡ false
is_empty-append_last x [] = refl
is_empty-append_last x (y ∷ xs) = refl

is_empty-add : (x : String) (xs : List String) → is_empty (add x xs) ≡ false
unfolding add
is_empty-add x [] = refl
is_empty-add x (y ∷ xs) = ground (arith, is_empty-append_last x (y ∷ xs))

module _ {ℓ} {T : Type ℓ} (name : T → String) where
  pub delete-named_entries :
      (k : String) (arr : List T)
      → delete k (named_entries name arr) ≡ named_entries name (filter (λ e. not (name e == k)) arr)
  unfolding named_entries delete
  delete-named_entries k [] = refl
  delete-named_entries k (e ∷ arr) = ground (arith, delete-named_entries k arr)

  filter-filter_names :
      (k : String) (names : List String) (arr : List T)
      → filter (λ e. not (any (λ n. n == name e) names)) (filter (λ e. not (name e == k)) arr)
        ≡ filter (λ e. not (any (λ n. n == name e) (k ∷ names))) arr
  filter-filter_names k names [] = refl
  filter-filter_names k names (e ∷ arr) =
      ground (arith, filter-filter_names k names arr, eq_iff (name e) k, eq_iff k (name e))

  filter_trivial : (arr : List T) → filter (λ e. true) arr ≡ arr
  filter_trivial [] = refl
  filter_trivial (e ∷ arr) = ap (λ r. e ∷ r) (filter_trivial arr)

  pub delete_all-named_entries :
      (names : List String) (arr : List T)
      → delete_all names (named_entries name arr)
        ≡ named_entries name (filter (λ e. not (any (λ n. n == name e) names)) arr)
  unfolding delete_all
  delete_all-named_entries [] arr = ap (named_entries name) (sym (filter_trivial arr))
  delete_all-named_entries (k ∷ names) arr =
      ap (delete_all names) (delete-named_entries k arr)
      ∙ delete_all-named_entries names (filter (λ e. not (name e == k)) arr)
      ∙ ap (named_entries name) (filter-filter_names k names arr)

  fresh-All :
      (n : String) (xs : List T)
      → get n (named_entries name xs) ≡ none
      → All (λ y. (name y == n) ≡ false) xs
  unfolding named_entries get
  fresh-All n [] h = tt
  fresh-All n (x ∷ xs) h = (ground arith, fresh-All n xs (ground arith))

  any_fresh :
      (f : T → Bool) (n : String) (xs : List T)
      → All (λ y. (name y == n) ≡ false) xs
      → any (λ y. f y && name y == n) xs ≡ false
  any_fresh f n [] h = refl
  any_fresh f n (x ∷ xs) (e, h) = ground (arith, any_fresh f n xs h)

  abbrev pub named_and : (T → Bool) → List T → T → Bool
  named_and f xs c = any (λ y. f y && name y == name c) xs

  own_later :
      (f : T → Bool) (x : T) (xs ys : List T)
      → All (λ y. (name y == name x) ≡ false) ys
      → All (λ c. named_and f xs c ≡ f c) ys
      → All (λ c. named_and f (x ∷ xs) c ≡ f c) ys
  own_later f x xs [] h k = tt
  own_later f x xs (y ∷ ys) (e, h) (g, k) =
      (ground (arith, eq_iff (name x) (name y), eq_iff (name y) (name x)), own_later f x xs ys h k)

  pub own :
      (f : T → Bool) (xs : List T) → HasDistinctNames name xs → All (λ c. named_and f xs c ≡ f c) xs
  unfolding named_entries
  own f [] h = tt
  own f (x ∷ xs) (fresh, h) = (
    ground (arith, eq_refl (name x), any_fresh f (name x) xs (fresh-All (name x) xs fresh)),
    own_later f x xs xs (fresh-All (name x) xs fresh) (own f xs h),
  )

  pub filter_same :
      (p q : T → Bool) (xs : List T)
      → All (λ c. p c ≡ q c) xs
      → filter (λ c. not (p c)) xs ≡ filter (λ c. not (q c)) xs
  filter_same p q [] h = refl
  filter_same p q (x ∷ xs) (e, h) = ground (arith, filter_same p q xs h)

module _ (r : Runtime) (s : ConfigService) (m : Dict String Cluster) (ports : List String) where
  -- The port of the cluster's server is not one of a stored daemon.
  abbrev pub has_unexpected_port : Cluster → Bool
  has_unexpected_port cluster = elim (get_port_from_cluster_server r cluster) [
    | rejected failure ↦ false
    | resolved port ↦ not (any (λ p. p == port) ports)
  ]

  -- A managed context whose cluster is there and has an unexpected port.
  unfoldable pub is_stale : Context → Bool
  is_stale c =
      is_kube_context_bastion_zero s c
      && elim (get c.cluster m) [ none ↦ false | some cluster ↦ has_unexpected_port cluster ]

  abbrev pub refers_to : String → Context → Bool
  refers_to n c = elim (get c.cluster m) [ none ↦ false | some cluster ↦ cluster.name == n ]

  fresh_step :
      (k : String) (c : Context) (d : Dict String Context) (contexts clusters : List String)
      (out : List String × List String)
      → is_stale c ≡ false
      → stale_names r s m ports ((k, c) ∷ d) contexts clusters ≡ resolved out
      → stale_names r s m ports d contexts clusters ≡ resolved out
  unfolding stale_names is_stale
  fresh_step k c d contexts clusters out fresh h = ground arith

  stale_step :
      (k : String) (c : Context) (d : Dict String Context) (contexts clusters : List String)
      → is_stale c ≡ true
      → (cluster : Cluster) × (get c.cluster m ≡ some cluster)
        × (stale_names r s m ports ((k, c) ∷ d) contexts clusters
            ≡ stale_names r s m ports d (add k contexts) (add cluster.name clusters))
  unfolding stale_names is_stale
  stale_step k c d contexts clusters stale = elim (Option-cases (get c.cluster m)) [
    | inl absent ↦ absurd (ground arith)
    | inr (cluster, found) ↦ (cluster, found, ground arith)
  ]

  pub stale_names_lem :
      (n : String) (d : Dict String Context) (contexts clusters contexts' clusters' : List String)
      → stale_names r s m ports d contexts clusters ≡ resolved (contexts', clusters')
      → (any (λ x. x == n) contexts'
          ≡ (any (λ x. x == n) contexts || any (λ e. is_stale e.1 && e.0 == n) d))
        × (any (λ x. x == n) clusters'
            ≡ (any (λ x. x == n) clusters || any (λ e. is_stale e.1 && refers_to n e.1) d))
        × (not (is_empty contexts') ≡ (not (is_empty contexts) || any (λ e. is_stale e.1) d))
        × (not (is_empty clusters') ≡ (not (is_empty clusters) || any (λ e. is_stale e.1) d))
  unfolding stale_names
  stale_names_lem n [] contexts clusters contexts' clusters' h = ground arith
  stale_names_lem n ((k, c) ∷ d) contexts clusters contexts' clusters' h =
      elim (Bool-cases (is_stale c)) [
        | inl stale ↦
            let (cluster, at, rest) = stale_step k c d contexts clusters stale in
            let (a, b, u, v) =
              stale_names_lem n d (add k contexts) (add cluster.name clusters) contexts' clusters'
                (sym rest ∙ h) in
            (
              ground (arith, any-add n k contexts),
              ground (arith, any-add n cluster.name clusters),
              ground (arith, is_empty-add k contexts),
              ground (arith, is_empty-add cluster.name clusters),
            )
        | inr fresh ↦
            let (a, b, u, v) =
              stale_names_lem n d contexts clusters contexts' clusters'
                (fresh_step k c d contexts clusters (contexts', clusters') fresh h) in
            (ground arith, ground arith, ground arith, ground arith)
      ]
