-- ===== src/Quickstart/Grouping.antt =====
-- The map from a user name to the hosts that share it, which two methods of the quickstart service
-- build and then go through.
use zli.Prelude.{
  String, string_key, ◌==◌, Option, none, some, List, [], ◌∷◌, ◌++◌, filter, All, All-append, ◌≡◌,
  refl, sym, subst, ap, ◌∙◌, arith, Bool-cases, inl, inr, append-nil, append_assoc, eq_iff,
}
use zli.Dict.Defs.{Dict, get, set, HasDistinctKeys}
use zli.Dict.Laws.{get-set, set-HasDistinctKeys}

-- `push` on the list of a key, which is made where there is none.
abbrev pub with_pushed {ℓ} : {A : Type ℓ} → Option (List A) → A → List A
with_pushed none a = a ∷ []
with_pushed (some group) a = group ++ a ∷ []

module _ {ℓ} {H : Type ℓ} (key : H → String) where
  unfoldable pub group_from : Dict String (List H) → List H → Dict String (List H)
  group_from m [] = m
  group_from m (h ∷ hosts) = group_from (set (key h) (with_pushed (get (key h) m) h) m) hosts

  abbrev pub of_key : String → List H → List H
  of_key k hosts = filter (λ h. key h == k) hosts

  -- The group of a key with more hosts; no group is empty.
  abbrev pub extended : Option (List H) → List H → Option (List H)
  extended none [] = none
  extended none (h ∷ more) = some (h ∷ more)
  extended (some group) more = some (group ++ more)

  extended_by_nothing : (group : Option (List H)) → extended group [] ≡ group
  extended_by_nothing none = refl
  extended_by_nothing (some group) = ap some (append-nil group)

  extended-with_pushed :
      (group : Option (List H)) (h : H) (more : List H)
      → extended (some (with_pushed group h)) more ≡ extended group (h ∷ more)
  extended-with_pushed none h more = refl
  extended-with_pushed (some group) h more = ap some (append_assoc group (h ∷ []) more)

  pub get-group_from :
      (k : String) (m : Dict String (List H)) (hosts : List H)
      → get k (group_from m hosts) ≡ extended (get k m) (of_key k hosts)
  unfolding group_from
  get-group_from k m [] = sym (extended_by_nothing (get k m))
  get-group_from k m (h ∷ hosts) =
      let m' = set (key h) (with_pushed (get (key h) m) h) m in
      get-group_from k m' hosts
      ∙ ground (
        arith,
        eq_iff (key h) k,
        get-set (key h) k (with_pushed (get (key h) m) h) m,
        extended-with_pushed (get k m) h (of_key k hosts),
      )

  pub group_from-HasDistinctKeys :
      (m : Dict String (List H)) (hosts : List H)
      → HasDistinctKeys m
      → HasDistinctKeys (group_from m hosts)
  unfolding group_from
  group_from-HasDistinctKeys m [] h = h
  group_from-HasDistinctKeys m (x ∷ hosts) h =
      group_from-HasDistinctKeys (set (key x) (with_pushed (get (key x) m) x) m) hosts
        (set-HasDistinctKeys (key x) _ m h)

  -- Every group holds hosts of its key.
  abbrev pub AreGroups : Dict String (List H) → Type ℓ
  AreGroups [] = Unit
  AreGroups ((k, hosts) ∷ d) = All (λ h. key h ≡ k) hosts × AreGroups d

  set-AreGroups :
      (k : String) (hosts : List H) (d : Dict String (List H))
      → All (λ h. key h ≡ k) hosts
      → AreGroups d
      → AreGroups (set k hosts d)
  unfolding set
  set-AreGroups k hosts [] h g = (h, tt)
  set-AreGroups k hosts ((j, old) ∷ d) h (g, gs) = elim (Bool-cases (j == k)) [
    | inl e ↦ rw e (subst (λ i. All (λ x. key x ≡ i) hosts) (sym ((eq_iff j k).0 e)) h, gs)
    | inr e ↦ rw e (g, set-AreGroups k hosts d h gs)
  ]

  with_pushed-All :
      (h : H) (d : Dict String (List H))
      → AreGroups d
      → All (λ x. key x ≡ key h) (with_pushed (get (key h) d) h)
  unfolding get
  with_pushed-All h [] g = (refl, tt)
  with_pushed-All h ((j, old) ∷ d) (g, gs) = elim (Bool-cases (j == key h)) [
    | inl e ↦ rw e (
        All-append (λ x. key x ≡ key h) old (h ∷ [])
          (subst (λ i. All (λ x. key x ≡ i) old) ((eq_iff j (key h)).0 e) g) (refl, tt))
    | inr e ↦ rw e (with_pushed-All h d gs)
  ]

  pub group_from-AreGroups :
      (m : Dict String (List H)) (hosts : List H) → AreGroups m → AreGroups (group_from m hosts)
  unfolding group_from
  group_from-AreGroups m [] g = g
  group_from-AreGroups m (h ∷ hosts) g =
      group_from-AreGroups (set (key h) (with_pushed (get (key h) m) h) m) hosts
        (set-AreGroups (key h) (with_pushed (get (key h) m) h) m (with_pushed-All h m g) g)
