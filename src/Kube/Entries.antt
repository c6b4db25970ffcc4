-- ===== src/Kube/Entries.antt =====
-- Maps of named entries, and lists of entries with distinct names.
use zli.Prelude.{
  String, string_key, ◌==◌, Option, none, some, List, [], ◌∷◌, ◌++◌, ◌≡◌, refl, ap, arith, find,
}
use zli.Dict.Defs.{Dict, get, set_all, values, HasDistinctKeys}
use zli.Dict.Bulk.{set_all_of_distinct}

module _ {ℓ} {T : Type ℓ} (name : T → String) where
  unfoldable pub named_entries : List T → List (String × T)
  named_entries [] = []
  named_entries (e ∷ arr) = (name e, e) ∷ named_entries arr

  -- `arr.forEach(e => map.set(e.name, e))`
  unfoldable pub build_map_of_named_kube_entries : List T → Dict String T
  build_map_of_named_kube_entries arr = set_all [] (named_entries arr)

  abbrev pub HasDistinctNames : List T → Type ℓ
  HasDistinctNames arr = HasDistinctKeys (named_entries arr)

  -- The entry of a name that a reader of the list finds.
  abbrev pub entry : String → List T → Option T
  entry n = find (λ e. name e == n)

  pub values-named_entries : (arr : List T) → values (named_entries arr) ≡ arr
  unfolding named_entries
  values-named_entries [] = refl
  values-named_entries (e ∷ arr) = ap (λ r. e ∷ r) (values-named_entries arr)

  pub get-named_entries : (n : String) (arr : List T) → get n (named_entries arr) ≡ entry n arr
  unfolding named_entries get
  get-named_entries n [] = refl
  get-named_entries n (e ∷ arr) = rw (get-named_entries n arr) refl

  pub build_map_of_distinct :
      (arr : List T)
      → HasDistinctNames arr
      → build_map_of_named_kube_entries arr ≡ named_entries arr
  unfolding build_map_of_named_kube_entries
  build_map_of_distinct arr h = set_all_of_distinct (named_entries arr) h

  pub entry-append :
      (n : String) (xs ys : List T)
      → entry n (xs ++ ys) ≡ elim (entry n xs) [ none ↦ entry n ys | some e ↦ some e ]
  entry-append n [] ys = refl
  entry-append n (x ∷ xs) ys = ground (arith, entry-append n xs ys)
