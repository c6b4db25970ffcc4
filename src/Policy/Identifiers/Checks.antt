-- ===== src/Policy/Identifiers/Checks.antt =====
-- The two checks on the identifiers of a command, and the search for unique resources.
use zli.Prelude.{
  append-nil, String, string_key, ◌↔◌, ltb, length, false, some, List, [], ◌∷◌, ◌++◌, ◌≡◌, refl,
  sym, ap, ◌∙◌, map, All, arith, eq_iff, inl, inr, Option-cases,
}
use zli.Dict.Defs.{Dict, get, set}
use zli.Dict.Laws.{get-set}
use zli.Effect.{returned}
use zli.Policy.Types.{PolicyTarget}
use zli.Policy.Identifiers.{
  TargetSummary, IdentifierMap, map_targets_by_name_or_id, check_all_identifiers_exist,
  check_all_identifiers_are_single, resources_map, parse_names, parse_unique_resource,
}
use zli.Policy.Identifiers.Laws.{HasNoEmptyList, map_targets_from-HasNoEmptyList}

-- Every identifier stands for exactly one target.
abbrev pub AreSingle : IdentifierMap → List String → Type 0
AreSingle m ids = All (λ id. (t : PolicyTarget) × (get id m ≡ some (t ∷ []))) ids

module _ (kind : String) (m : IdentifierMap) (w : HasNoEmptyList m) where
  checks_of_single :
      (ids : List String)
      → AreSingle m ids
      → ((check_all_identifiers_exist kind m ids).1 ≡ returned tt)
        × ((check_all_identifiers_are_single kind m ids).1 ≡ returned tt)
  unfolding check_all_identifiers_exist check_all_identifiers_are_single
  checks_of_single [] h = (refl, refl)
  checks_of_single (id ∷ ids) ((t, e), h) =
      let (a, b) = checks_of_single ids h in (ground arith, ground arith)

  single_of :
      (id : String) (ts : List PolicyTarget)
      → get id m ≡ some ts
      → ltb 1 (length ts) ≡ false
      → (t : PolicyTarget) × (get id m ≡ some (t ∷ []))
  single_of id [] e h = absurd (w id e)
  single_of id (t ∷ []) e h = (t, e)
  single_of id (t ∷ u ∷ ts) e h = absurd (ground arith)

  single_of_checks :
      (ids : List String)
      → (check_all_identifiers_exist kind m ids).1 ≡ returned tt
      → (check_all_identifiers_are_single kind m ids).1 ≡ returned tt
      → AreSingle m ids
  unfolding check_all_identifiers_exist check_all_identifiers_are_single
  single_of_checks [] h k = tt
  single_of_checks (id ∷ ids) h k = elim (Option-cases (get id m)) [
    | inl absent ↦ absurd (ground arith)
    | inr (ts, e) ↦
        (single_of id ts e (ground arith), single_of_checks ids (ground arith) (ground arith))
  ]

empty_map : HasNoEmptyList []
unfolding get
empty_map k h = cc

-- Over the map of any targets, both checks pass exactly if every identifier stands for exactly one
-- target.
checks_lem :
    (kind : String) (targets : List TargetSummary) (ids : List String)
    → (((check_all_identifiers_exist kind (map_targets_by_name_or_id targets) ids).1 ≡ returned tt)
        × ((check_all_identifiers_are_single kind (map_targets_by_name_or_id targets) ids).1
            ≡ returned tt))
      ↔ AreSingle (map_targets_by_name_or_id targets) ids
unfolding map_targets_by_name_or_id
checks_lem kind targets ids =
    let w = map_targets_from-HasNoEmptyList [] targets empty_map in
    (
      λ h. single_of_checks kind (map_targets_by_name_or_id targets) w ids h.0 h.1,
      λ h. checks_of_single kind (map_targets_by_name_or_id targets) w ids h,
    )

module _ {ℓ} {T : Type ℓ} (to_resource_key : T → String) where
  abbrev HasOwnKeys : Dict String T → Type ℓ
  HasOwnKeys m = (n : String) (r : T) → get n m ≡ some r → to_resource_key r ≡ n

  resources_map-HasOwnKeys :
      (m : Dict String T) (rs : List T)
      → HasOwnKeys m
      → HasOwnKeys (resources_map to_resource_key m rs)
  unfolding resources_map
  resources_map-HasOwnKeys m [] w = w
  resources_map-HasOwnKeys m (r ∷ rs) w =
      resources_map-HasOwnKeys (set (to_resource_key r) r m) rs (λ n x e.
        ground (arith, get-set (to_resource_key r) n r m, w n x, eq_iff (to_resource_key r) n))

  map-append_last :
      (acc : List T) (r : T) (names : List String)
      → map to_resource_key (acc ++ r ∷ []) ++ names
        ≡ map to_resource_key acc ++ to_resource_key r ∷ names
  map-append_last [] r names = refl
  map-append_last (x ∷ acc) r names = ap (λ l. to_resource_key x ∷ l) (map-append_last acc r names)

  keys_of_parse_names :
      (kind : String) (m : Dict String T) (acc : List T) (names : List String) (rs : List T)
      → HasOwnKeys m
      → (parse_names to_resource_key kind m acc names).1 ≡ returned rs
      → map to_resource_key rs ≡ map to_resource_key acc ++ names
  unfolding parse_names
  keys_of_parse_names kind m acc [] rs w h =
      ap (map to_resource_key) (ground arith) ∙ sym (append-nil (map to_resource_key acc))
  keys_of_parse_names kind m acc (n ∷ names) rs w h = elim (Option-cases (get n m)) [
    | inl absent ↦ absurd (ground arith)
    | inr (r, e) ↦
        keys_of_parse_names kind m (acc ++ r ∷ []) names rs w (ground arith)
        ∙ map-append_last acc r names
        ∙ ap (λ k. map to_resource_key acc ++ k ∷ names) (w n r e)
  ]

  empty-HasOwnKeys : HasOwnKeys []
  unfolding get
  empty-HasOwnKeys n r h = absurd (cc)

  -- If the search for unique resources returns, the keys of what it returns are the names, in
  -- order.
  parse_unique_resource_keys :
      (names : List String) (all_resources : List T) (kind : String) (rs : List T)
      → (parse_unique_resource to_resource_key names all_resources kind).1 ≡ returned rs
      → map to_resource_key rs ≡ names
  unfolding parse_unique_resource
  parse_unique_resource_keys names all_resources kind rs h =
      keys_of_parse_names kind (resources_map to_resource_key [] all_resources) [] names rs
        (resources_map-HasOwnKeys [] all_resources empty-HasOwnKeys) h
