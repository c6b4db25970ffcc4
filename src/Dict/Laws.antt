-- ===== src/Dict/Laws.antt =====
-- How one operation shows in a later read.
use zli.Prelude.{
  Key, ◌==◌, true, none, some, [], ◌∷◌, ◌≡◌, refl, if◌then◌else◌, arith, Bool-cases, inl, inr,
}
use zli.Dict.Defs.{Dict, get, set, delete, HasDistinctKeys}

module _ {ℓ} {K : Type ℓ} ⦃e : Key K⦄ where
  pub ==_refl : (k : K) → (k == k) ≡ true
  ==_refl k = (e.equal_iff k k).1 refl

  pub ==-to-≡ : {j k : K} → (j == k) ≡ true → j ≡ k
  ==-to-≡ {j} {k} h = (e.equal_iff j k).0 h

module _ {ℓ κ} {K : Type ℓ} {V : Type κ} ⦃e : Key K⦄ where
  pub get-set :
      (k j : K) (v : V) (d : Dict K V) → get j (set k v d) ≡ (if k == j then some v else get j d)
  unfolding get set
  get-set k j v [] = refl
  get-set k j v ((i, w) ∷ d) =
      ground (arith, e.equal_iff k j, e.equal_iff i k, e.equal_iff i j, get-set k j v d)

  pub get-delete :
      (k j : K) (d : Dict K V) → get j (delete k d) ≡ (if k == j then none else get j d)
  unfolding get delete
  get-delete k j [] = ground arith
  get-delete k j ((i, w) ∷ d) =
      ground (arith, e.equal_iff k j, e.equal_iff i k, e.equal_iff i j, get-delete k j d)

  pub get-set_self : (k : K) (v : V) (d : Dict K V) → get k (set k v d) ≡ some v
  get-set_self k v d = rw (get-set, ==_refl)

  pub get-delete_self : (k : K) (d : Dict K V) → get k (delete k d) ≡ none
  get-delete_self k d = rw (get-delete, ==_refl)

  pub set-HasDistinctKeys :
      (k : K) (v : V) (d : Dict K V) → HasDistinctKeys d → HasDistinctKeys (set k v d)
  unfolding get set
  set-HasDistinctKeys k v [] h = (refl, tt)
  set-HasDistinctKeys k v ((j, w) ∷ d) (fresh, h) = elim (Bool-cases (j == k)) [
    | inl same ↦ rw same (fresh, h)
    | inr other ↦ rw other (
      rw get-set (ground (arith, e.equal_iff j k, e.equal_iff k j, fresh)),
      set-HasDistinctKeys k v d h,
    )
  ]

  pub delete-HasDistinctKeys :
      (k : K) (d : Dict K V) → HasDistinctKeys d → HasDistinctKeys (delete k d)
  unfolding get delete
  delete-HasDistinctKeys k [] h = tt
  delete-HasDistinctKeys k ((j, w) ∷ d) (fresh, h) = elim (Bool-cases (j == k)) [
    | inl same ↦ rw same (delete-HasDistinctKeys k d h)
    | inr other ↦ rw other (ground (arith, get-delete k j d), delete-HasDistinctKeys k d h)
  ]

  -- Deleting a key that is absent changes nothing.
  pub delete_of_none : (k : K) (d : Dict K V) → get k d ≡ none → delete k d ≡ d
  unfolding get delete
  delete_of_none k [] h = refl
  delete_of_none k ((j, w) ∷ d) h = ground (arith, delete_of_none k d)
