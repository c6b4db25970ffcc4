-- ===== src/Dict/Defs.antt =====
-- Reading, writing and deleting an entry. A write to a key that is present keeps its position.
use zli.Prelude.{Key, ◌==◌, Option, none, some, List, [], ◌∷◌, ◌≡◌, if◌then◌else◌}

abbrev pub Dict {ℓ κ} : Type ℓ → Type κ → Type (ℓ ⊔ κ)
Dict K V = List (K × V)

module _ {ℓ κ} {K : Type ℓ} {V : Type κ} ⦃e : Key K⦄ where
  -- `d[k]`, `d.get(k)`; a missing key gives `undefined`.
  unfoldable pub get : K → Dict K V → Option V
  get k [] = none
  get k ((j, v) ∷ d) = if j == k then some v else get k d

  -- `d[k] = v`, `d.set(k, v)`
  unfoldable pub set : K → V → Dict K V → Dict K V
  set k v [] = (k, v) ∷ []
  set k v ((j, w) ∷ d) = if j == k then (j, v) ∷ d else (j, w) ∷ set k v d

  -- `delete d[k]`, `d.delete(k)`
  unfoldable pub delete : K → Dict K V → Dict K V
  delete k [] = []
  delete k ((j, w) ∷ d) = let rest = delete k d in if j == k then rest else (j, w) ∷ rest

  -- No key stands twice: what every object and `Map` guarantees.
  abbrev pub HasDistinctKeys : Dict K V → Type κ
  HasDistinctKeys [] = Unit
  HasDistinctKeys ((k, v) ∷ d) = (get k d ≡ none) × HasDistinctKeys d

abbrev pub keys {ℓ κ} : {K : Type ℓ} {V : Type κ} → Dict K V → List K
keys [] = []
keys ((k, v) ∷ d) = k ∷ keys d

abbrev pub values {ℓ κ} : {K : Type ℓ} {V : Type κ} → Dict K V → List V
values [] = []
values ((k, v) ∷ d) = v ∷ values d

module _ {ℓ κ} {K : Type ℓ} {V : Type κ} ⦃e : Key K⦄ where
  -- `for (const [k, v] of entries) d.set(k, v)`
  unfoldable pub set_all : Dict K V → List (K × V) → Dict K V
  set_all d [] = d
  set_all d ((k, v) ∷ entries) = set_all (set k v d) entries
