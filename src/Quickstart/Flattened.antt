-- ===== src/Quickstart/Flattened.antt =====
-- What a loop over the groups collects, picked apart again by the key of its group.
use zli.Prelude.{
  String, Option, List, false, string_key, ◌==◌, Bool-cases, inl, inr, none, some, [], ◌∷◌, ◌++◌,
  ◌≡◌, refl, subst, ◌∙◌, ap, ap₂, All, filter, filter-append, append-nil, eq_iff, arith,
}
use zli.Dict.Defs.{Dict, get, HasDistinctKeys}
use zli.Quickstart.Grouping.{
  group_from, of_key, extended, AreGroups, get-group_from, group_from-HasDistinctKeys,
  group_from-AreGroups,
}

module _ {ℓ κ} {H : Type ℓ} {R : Type κ} (result : String → List H → List R) where
  abbrev pub flattened : Dict String (List H) → List R
  flattened [] = []
  flattened ((k, hosts) ∷ d) = result k hosts ++ flattened d

  -- The result for the elements of a key, when there are any.
  abbrev pub for_group : String → List H → List R
  for_group k [] = []
  for_group k (h ∷ hosts) = result k (h ∷ hosts)

  abbrev of_group : String → Option (List H) → List R
  of_group k none = []
  of_group k (some hosts) = result k hosts

module _ {ℓ κ} {H : Type ℓ} {R : Type κ} (key : H → String) (result : String → List H → List R)
    (tag : R → String)
    (tagged : (k : String) (hosts : List H)
      → All (λ h. key h ≡ k) hosts
      → All (λ r. tag r ≡ k) (result k hosts)) where
  filter_of_tagged :
      (k : String) (rs : List R) → All (λ r. tag r ≡ k) rs → filter (λ r. tag r == k) rs ≡ rs
  filter_of_tagged k [] h = refl
  filter_of_tagged k (r ∷ rs) (e, h) = ground (arith, eq_iff (tag r) k, filter_of_tagged k rs h)

  filter_of_others :
      (j k : String) (rs : List R)
      → (j == k) ≡ false
      → All (λ r. tag r ≡ j) rs
      → filter (λ r. tag r == k) rs ≡ []
  filter_of_others j k [] n h = refl
  filter_of_others j k (r ∷ rs) n (e, h) = rw (e, n) (filter_of_others j k rs n h)

  filter-flattened :
      (k : String) (d : Dict String (List H))
      → HasDistinctKeys d
      → AreGroups key d
      → filter (λ r. tag r == k) (flattened result d) ≡ of_group result k (get k d)
  unfolding get
  filter-flattened k [] h g = refl
  filter-flattened k ((j, hosts) ∷ d) (fresh, h) (g, gs) =
      filter-append (λ r. tag r == k) (result j hosts) (flattened result d)
      ∙ elim (Bool-cases (j == k)) [
        | inl e ↦
            let same = (eq_iff j k).0 e in
            let now = subst (λ i. All (λ r. tag r ≡ i) (result j hosts)) same (tagged j hosts g) in
            let rest =
              filter-flattened k d h gs
              ∙ ap (of_group result k) (subst (λ i. get i d ≡ none) same fresh) in
            rw e (
              ap₂ (λ a b. a ++ b) (filter_of_tagged k (result j hosts) now) rest
              ∙ append-nil (result j hosts)
              ∙ ap (λ i. result i hosts) same)
        | inr e ↦ rw e (
            ap₂ (λ a b. a ++ b) (filter_of_others j k (result j hosts) e (tagged j hosts g))
              (filter-flattened k d h gs))
      ]

  of_group-extended :
      (k : String) (hosts : List H)
      → of_group result k (extended key none hosts) ≡ for_group result k hosts
  of_group-extended k [] = refl
  of_group-extended k (h ∷ hosts) = refl

  -- The loop over the groups of a list collects, for each key, the result for the group of all
  -- elements of the key in their order, and nothing for a key that no element has.
  pub flattened-group_from :
      (k : String) (hosts : List H)
      → filter (λ r. tag r == k) (flattened result (group_from key [] hosts))
        ≡ for_group result k (of_key key k hosts)
  unfolding get
  flattened-group_from k hosts =
      filter-flattened k (group_from key [] hosts) (group_from-HasDistinctKeys key [] hosts tt)
        (group_from-AreGroups key [] hosts tt)
      ∙ ap (of_group result k) (get-group_from key k [] hosts)
      ∙ of_group-extended k (of_key key k hosts)
