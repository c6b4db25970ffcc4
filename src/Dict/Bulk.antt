-- ===== src/Dict/Bulk.antt =====
-- Loops that write entries in turn.
use zli.Prelude.{Key, ◌==◌, none, List, [], ◌∷◌, ◌≡◌, refl, ap, ◌∙◌, arith, inl, inr, Bool-cases}
use zli.Dict.Defs.{Dict, get, set, set_all, HasDistinctKeys}
use zli.Dict.Laws.{get-set, set-HasDistinctKeys}

module _ {ℓ κ} {K : Type ℓ} {V : Type κ} ⦃e : Key K⦄ where
  -- Entries written behind an entry with another key leave that entry in front.
  set_all-cons :
      (k : K) (v : V) (d : Dict K V) (entries : List (K × V))
      → get k entries ≡ none
      → set_all ((k, v) ∷ d) entries ≡ (k, v) ∷ set_all d entries
  unfolding get set set_all
  set_all-cons k v d [] h = refl
  set_all-cons k v d ((j, w) ∷ entries) h = elim (Bool-cases (k == j)) [
    | inl same ↦ ground (arith, e.equal_iff k j, e.equal_iff j k)
    | inr other ↦ rw other (set_all-cons k v (set j w d) entries (ground arith))
  ]

  -- Writing distinct entries to an empty dictionary gives these entries.
  pub set_all_of_distinct : (d : Dict K V) → HasDistinctKeys d → set_all [] d ≡ d
  unfolding set set_all
  set_all_of_distinct [] h = refl
  set_all_of_distinct ((k, v) ∷ d) (fresh, h) =
      set_all-cons k v [] d fresh ∙ ap (λ r. (k, v) ∷ r) (set_all_of_distinct d h)

  pub set_all-HasDistinctKeys :
      (d : Dict K V) (entries : List (K × V))
      → HasDistinctKeys d
      → HasDistinctKeys (set_all d entries)
  unfolding set_all
  set_all-HasDistinctKeys d [] h = h
  set_all-HasDistinctKeys d ((k, v) ∷ entries) h =
      set_all-HasDistinctKeys (set k v d) entries (set-HasDistinctKeys k v d h)

  -- A read after the loop: the last entry of that key, or else what was there.
  pub get-set_all-none :
      (j : K) (d : Dict K V) (entries : List (K × V))
      → get j entries ≡ none
      → get j (set_all d entries) ≡ get j d
  unfolding get set_all
  get-set_all-none j d [] h = refl
  get-set_all-none j d ((k, v) ∷ entries) h =
      ground (arith, get-set_all-none j (set k v d) entries, get-set k j v d)
