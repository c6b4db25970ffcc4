-- ===== src/Kube/Merge.antt =====
-- `mergeKubeConfig`: the entries of the destination take precedence.
use zli.Prelude.{append-nil}
use zli.Prelude.{append_assoc}
use zli.Prelude.{filter-append}
use zli.Prelude.{subst}
use zli.Prelude.{eq_refl}
use zli.Prelude.{inr}
use zli.Prelude.{inl}
use zli.Prelude.{All}
use zli.Prelude.{Option-cases}
use zli.Prelude.{fun_ext}
use zli.Prelude.{
  String, string_key, ◌==◌, Bool, true, false, Option, none, some, List, [], ◌∷◌, ◌++◌, ◌≡◌, refl,
  sym, Bool-cases, ◌⊎◌, ap, ap₂, ◌∙◌, arith, filter, eq_iff, if◌then◌else◌,
}
use zli.Dict.Defs.{Dict, get, values}
use zli.Kube.Config.{KubeConfig}
use zli.Kube.Entries.{
  build_map_of_named_kube_entries, HasDistinctNames, entry, values-named_entries, get-named_entries,
  build_map_of_distinct, entry-append,
}

abbrev pub is_none {ℓ} : {A : Type ℓ} → Option A → Bool
is_none none = true
is_none (some a) = false

-- The entries of the source whose name the destination lacks, then those of the destination.
unfoldable pub merge_entries_with {ℓ} :
    {T : Type ℓ} → (T → String) → List T → Dict String T → List T
merge_entries_with name src_entries dest_entries_map =
    filter (λ e. is_none (get (name e) dest_entries_map)) src_entries ++ values dest_entries_map

-- `if (destConfig.currentContext)` holds of a name that is not empty.
unfoldable pub merged_context : Option String → Option String → Option String
merged_context src none = src
merged_context src (some name) = if name == "" then src else some name

unfoldable pub merge_kube_config : KubeConfig → KubeConfig → KubeConfig
merge_kube_config src dest = record {
  clusters =
      merge_entries_with (λ e. e.name) src.clusters
        (build_map_of_named_kube_entries (λ e. e.name) dest.clusters);
  users =
      merge_entries_with (λ e. e.name) src.users
        (build_map_of_named_kube_entries (λ e. e.name) dest.users);
  contexts =
      merge_entries_with (λ e. e.name) src.contexts
        (build_map_of_named_kube_entries (λ e. e.name) dest.contexts);
  current_context = merged_context src.current_context dest.current_context;
}

-- The first of two that is there.
abbrev pub or_else {ℓ} : {A : Type ℓ} → Option A → Option A → Option A
or_else none b = b
or_else (some a) b = some a

module _ {ℓ} {T : Type ℓ} (name : T → String) where
  abbrev merged : List T → List T → List T
  merged src dest = merge_entries_with name src (build_map_of_named_kube_entries name dest)

  merged_lem :
      (src dest : List T)
      → HasDistinctNames name dest
      → merged src dest ≡ filter (λ e. is_none (entry name (name e) dest)) src ++ dest
  unfolding merge_entries_with
  merged_lem src dest h = rw (build_map_of_distinct name dest h) (
      ap₂ (λ x y. x ++ y)
        (ap (λ p. filter p src) (fun_ext (λ e. ap is_none (get-named_entries name (name e) dest))))
        (values-named_entries name dest))

  entry-filter :
      (n : String) (src dest : List T)
      → entry name n dest ≡ none
      → entry name n (filter (λ e. is_none (entry name (name e) dest)) src) ≡ entry name n src
  entry-filter n [] dest h = refl
  entry-filter n (e ∷ src) dest h = ground (arith, entry-filter n src dest h, eq_iff (name e) n)

  entry-filter_found :
      (n : String) (src dest : List T) (d : T)
      → entry name n dest ≡ some d
      → entry name n (filter (λ e. is_none (entry name (name e) dest)) src) ≡ none
  entry-filter_found n [] dest d h = refl
  entry-filter_found n (e ∷ src) dest d h =
      ground (arith, entry-filter_found n src dest d h, eq_iff (name e) n)

  pub entry-merged :
      (n : String) (src dest : List T)
      → HasDistinctNames name dest
      → entry name n (merged src dest) ≡ or_else (entry name n dest) (entry name n src)
  entry-merged n src dest h =
      ap (entry name n) (merged_lem src dest h) ∙ elim (Option-cases (entry name n dest)) [
        | inl absent ↦ ground (
          arith,
          entry-append name n (filter (λ e. is_none (entry name (name e) dest)) src) dest,
          entry-filter n src dest absent,
        )
        | inr (d, found) ↦ ground (
          arith,
          entry-append name n (filter (λ e. is_none (entry name (name e) dest)) src) dest,
          entry-filter_found n src dest d found,
        )
      ]

  filter_twice : (p : T → Bool) (xs : List T) → filter p (filter p xs) ≡ filter p xs
  filter_twice p [] = refl
  filter_twice p (x ∷ xs) = ground (arith, filter_twice p xs)

  filter_own : (p : T → Bool) (xs : List T) → All (λ e. p e ≡ false) xs → filter p xs ≡ []
  filter_own p [] h = refl
  filter_own p (x ∷ xs) (e, h) = ground (arith, filter_own p xs h)

  present_at :
      (before : List T) (x : T) (xs : List T)
      → is_none (entry name (name x) (before ++ x ∷ xs)) ≡ false
  present_at [] x xs = ground (arith, eq_refl (name x))
  present_at (y ∷ before) x xs = ground (arith, present_at before x xs)

  present :
      (before xs : List T) → All (λ e. is_none (entry name (name e) (before ++ xs)) ≡ false) xs
  present before [] = tt
  present before (x ∷ xs) = (
    present_at before x xs,
    subst (λ l. All (λ e. is_none (entry name (name e) l) ≡ false) xs)
        (append_assoc before (x ∷ []) xs) (present (before ++ x ∷ []) xs),
  )

  pub merged_again :
      (src dest : List T)
      → HasDistinctNames name dest
      → merged (merged src dest) dest ≡ merged src dest
  merged_again src dest h =
      merged_lem (merged src dest) dest h
      ∙ ap (λ l. filter (λ e. is_none (entry name (name e) dest)) l ++ dest) (merged_lem src dest h)
      ∙ ap (λ l. l ++ dest)
          (filter-append (λ e. is_none (entry name (name e) dest)) _ dest
            ∙ ap₂ (λ x y. x ++ y) (filter_twice (λ e. is_none (entry name (name e) dest)) src)
                (filter_own (λ e. is_none (entry name (name e) dest)) dest (present [] dest))
            ∙ append-nil _)
      ∙ sym (merged_lem src dest h)

kube_config_path :
    {a b : KubeConfig}
    → a.clusters ≡ b.clusters
    → a.users ≡ b.users
    → a.contexts ≡ b.contexts
    → a.current_context ≡ b.current_context
    → a ≡ b
kube_config_path hc hu hx hn =
    λ i. record { clusters = hc i; users = hu i; contexts = hx i; current_context = hn i }

merged_context_again :
    (src dest : Option String)
    → merged_context (merged_context src dest) dest ≡ merged_context src dest
unfolding merged_context
merged_context_again src none = refl
merged_context_again src (some name) = ground arith

-- The merged current context is the destination's if it is set and not empty, and the source's
-- otherwise.
abbrev pub IsMergedContext : (src dest result : Option String) → Type 0
IsMergedContext src none result = result ≡ src
IsMergedContext src (some name) result =
    ((name == "") ≡ false) × (result ≡ some name) ⊎ (name ≡ "") × (result ≡ src)

merged_context-IsMergedContext :
    (src dest : Option String) → IsMergedContext src dest (merged_context src dest)
unfolding merged_context
merged_context-IsMergedContext src none = refl
merged_context-IsMergedContext src (some name) = elim (Bool-cases (name == "")) [
  | inl e ↦ inr (ground (arith, eq_iff name ""), rw e refl)
  | inr e ↦ inl (e, rw e refl)
]

-- Looking a name up in the merged config gives the destination's entry, or else the source's, for
-- clusters, users and contexts; the current context is the destination's if it is set and not empty,
-- and merging the destination in again changes nothing. The names of the destination are distinct.
pub merge_kube_config_lem :
    (src dest : KubeConfig) (n : String)
    → HasDistinctNames (λ e. e.name) dest.clusters
    → HasDistinctNames (λ e. e.name) dest.users
    → HasDistinctNames (λ e. e.name) dest.contexts
    → (entry (λ e. e.name) n (merge_kube_config src dest).clusters
        ≡ or_else (entry (λ e. e.name) n dest.clusters) (entry (λ e. e.name) n src.clusters))
      × (entry (λ e. e.name) n (merge_kube_config src dest).users
          ≡ or_else (entry (λ e. e.name) n dest.users) (entry (λ e. e.name) n src.users))
      × (entry (λ e. e.name) n (merge_kube_config src dest).contexts
          ≡ or_else (entry (λ e. e.name) n dest.contexts) (entry (λ e. e.name) n src.contexts))
      × IsMergedContext src.current_context dest.current_context
          (merge_kube_config src dest).current_context
      × (merge_kube_config (merge_kube_config src dest) dest ≡ merge_kube_config src dest)
unfolding merge_kube_config
merge_kube_config_lem src dest n hc hu hx = (
  entry-merged (λ e. e.name) n src.clusters dest.clusters hc,
  entry-merged (λ e. e.name) n src.users dest.users hu,
  entry-merged (λ e. e.name) n src.contexts dest.contexts hx,
  merged_context-IsMergedContext src.current_context dest.current_context,
  kube_config_path (merged_again (λ e. e.name) src.clusters dest.clusters hc)
      (merged_again (λ e. e.name) src.users dest.users hu)
      (merged_again (λ e. e.name) src.contexts dest.contexts hx)
      (merged_context_again src.current_context dest.current_context),
)
