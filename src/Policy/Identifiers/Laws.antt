-- ===== src/Policy/Identifiers/Laws.antt =====
-- What the map of the targets gives for a name and for an id, and which resources the names stand for.
use zli.Prelude.{
  String, string_key, ◌==◌, false, Option, none, some, List, [], ◌∷◌, ◌++◌, ◌≡◌, refl, ap, ◌∙◌, map,
  filter, any, arith, eq_iff, eq_refl, append_assoc, if◌then◌else◌, inl, inr, Bool-cases,
}
use zli.Dict.Defs.{get, set}
use zli.Dict.Laws.{get-set}
use zli.Policy.Types.{PolicyTarget}
use zli.Policy.Identifiers.{
  TargetSummary, target_ref, pushed, IdentifierMap, add_target, map_targets_from,
  map_targets_by_name_or_id,
}

-- The targets of a name, after those that stand under it already.
abbrev pub pushed_all : Option (List PolicyTarget) → List PolicyTarget → Option (List PolicyTarget)
pushed_all o [] = o
pushed_all none (t ∷ ts) = some (t ∷ ts)
pushed_all (some targets) (t ∷ ts) = some (targets ++ t ∷ ts)

pushed_all-pushed :
    (o : Option (List PolicyTarget)) (t : PolicyTarget) (ts : List PolicyTarget)
    → pushed_all (some (pushed o t)) ts ≡ pushed_all o (t ∷ ts)
pushed_all-pushed none t [] = refl
pushed_all-pushed none t (u ∷ ts) = refl
pushed_all-pushed (some us) t [] = refl
pushed_all-pushed (some us) t (u ∷ ts) = ap some (append_assoc us (t ∷ []) (u ∷ ts))

abbrev pub named_refs : String → List TargetSummary → List PolicyTarget
named_refs k targets = map target_ref (filter (λ (t : TargetSummary). t.name == k) targets)

get-add_target :
    (k : String) (t : TargetSummary) (m : IdentifierMap)
    → (t.id == k) ≡ false
    → get k (add_target t m)
      ≡ (if t.name == k then some (pushed (get k m) (target_ref t)) else get k m)
unfolding add_target
get-add_target k t m h = ground (
  arith,
  get-set t.id k (target_ref t ∷ []) (set t.name (pushed (get t.name m) (target_ref t)) m),
  get-set t.name k (pushed (get t.name m) (target_ref t)) m,
  eq_iff t.name k,
)

get-add_target_id :
    (t : TargetSummary) (m : IdentifierMap) → get t.id (add_target t m) ≡ some (target_ref t ∷ [])
unfolding add_target
get-add_target_id t m = ground (
  arith,
  get-set t.id t.id (target_ref t ∷ []) (set t.name (pushed (get t.name m) (target_ref t)) m),
  eq_refl t.id,
)

get-map_targets_from :
    (k : String) (m : IdentifierMap) (targets : List TargetSummary)
    → any (λ (t : TargetSummary). t.id == k) targets ≡ false
    → get k (map_targets_from m targets) ≡ pushed_all (get k m) (named_refs k targets)
unfolding map_targets_from
get-map_targets_from k m [] h = refl
get-map_targets_from k m (t ∷ targets) h =
    get-map_targets_from k (add_target t m) targets (ground arith)
    ∙ ap (λ o. pushed_all o (named_refs k targets)) (get-add_target k t m (ground arith))
    ∙ elim (Bool-cases (t.name == k)) [
      | inl same ↦ rw same (pushed_all-pushed (get k m) (target_ref t) (named_refs k targets))
      | inr other ↦ rw other refl
    ]

keep_id :
    (k : String) (m : IdentifierMap) (targets : List TargetSummary)
    → any (λ (t : TargetSummary). t.id == k) targets ≡ false
    → any (λ (t : TargetSummary). t.name == k) targets ≡ false
    → get k (map_targets_from m targets) ≡ get k m
unfolding map_targets_from
keep_id k m [] h n = refl
keep_id k m (t ∷ targets) h n =
    keep_id k (add_target t m) targets (ground arith) (ground arith)
    ∙ ground (arith, get-add_target k t m)

map_targets_from-append :
    (m : IdentifierMap) (before after : List TargetSummary)
    → map_targets_from m (before ++ after) ≡ map_targets_from (map_targets_from m before) after
unfolding map_targets_from
map_targets_from-append m [] after = refl
map_targets_from-append m (t ∷ before) after = map_targets_from-append (add_target t m) before after

-- In the map of the targets, an identifier that is no id stands for all targets of that name, in
-- order, or for nothing if there is none. The id of a target stands for that target alone, if no
-- later target has it as its id or its name.
pub map_targets_by_name_or_id_lem :
    (k : String) (before : List TargetSummary) (t : TargetSummary) (after : List TargetSummary)
    → any (λ (u : TargetSummary). u.id == k) (before ++ t ∷ after) ≡ false
    → any (λ (u : TargetSummary). u.id == t.id) after ≡ false
    → any (λ (u : TargetSummary). u.name == t.id) after ≡ false
    → (get k (map_targets_by_name_or_id (before ++ t ∷ after))
        ≡ pushed_all none (named_refs k (before ++ t ∷ after)))
      × (get t.id (map_targets_by_name_or_id (before ++ t ∷ after)) ≡ some (target_ref t ∷ []))
unfolding map_targets_by_name_or_id map_targets_from get
map_targets_by_name_or_id_lem k before t after h i n = (
  get-map_targets_from k [] (before ++ t ∷ after) h,
  ap (get t.id) (map_targets_from-append [] before (t ∷ after))
      ∙ keep_id t.id (add_target t (map_targets_from [] before)) after i n
      ∙ get-add_target_id t (map_targets_from [] before),
)

-- No identifier stands for an empty list.
abbrev pub HasNoEmptyList : IdentifierMap → Type 0
HasNoEmptyList m = (k : String) → ¬ (get k m ≡ some [])

pushed_nonempty : (o : Option (List PolicyTarget)) (t : PolicyTarget) → ¬ (pushed o t ≡ [])
pushed_nonempty none t h = cc
pushed_nonempty (some []) t h = cc
pushed_nonempty (some (u ∷ us)) t h = cc

add_target-HasNoEmptyList :
    (t : TargetSummary) (m : IdentifierMap) → HasNoEmptyList m → HasNoEmptyList (add_target t m)
unfolding add_target
add_target-HasNoEmptyList t m w k h = ground (
  arith,
  w k,
  pushed_nonempty (get t.name m) (target_ref t),
  get-set t.id k (target_ref t ∷ []) (set t.name (pushed (get t.name m) (target_ref t)) m),
  get-set t.name k (pushed (get t.name m) (target_ref t)) m,
)

pub map_targets_from-HasNoEmptyList :
    (m : IdentifierMap) (targets : List TargetSummary)
    → HasNoEmptyList m
    → HasNoEmptyList (map_targets_from m targets)
unfolding map_targets_from
map_targets_from-HasNoEmptyList m [] w = w
map_targets_from-HasNoEmptyList m (t ∷ targets) w =
    map_targets_from-HasNoEmptyList (add_target t m) targets (add_target-HasNoEmptyList t m w)
