-- ===== src/Policy/Identifiers/Tests.antt =====
-- Two targets of one name, and a third.
use zli.Prelude.{string_key, some, [], ◌∷◌, ◌≡◌, refl}
use zli.Dict.Defs.{get}
use zli.Policy.Identifiers.{TargetSummary, target_ref, map_targets_by_name_or_id}
use zli.Policy.Identifiers.Laws.{map_targets_by_name_or_id_lem}

abbrev first : TargetSummary
first = record { id = "1"; name = "db"; target_type = "Db" }

abbrev second : TargetSummary
second = record { id = "2"; name = "db"; target_type = "Db" }

abbrev third : TargetSummary
third = record { id = "3"; name = "web"; target_type = "Web" }

map_targets_by_name_or_id_lem_example :
    (get "db" (map_targets_by_name_or_id (first ∷ second ∷ third ∷ []))
      ≡ some (target_ref first ∷ target_ref second ∷ []))
    × (get "2" (map_targets_by_name_or_id (first ∷ second ∷ third ∷ []))
        ≡ some (target_ref second ∷ []))
map_targets_by_name_or_id_lem_example =
    map_targets_by_name_or_id_lem "db" (first ∷ []) second (third ∷ []) refl refl refl
