-- ===== src/Shell/Space.antt =====
-- Which space the zli uses.
use zli.Prelude.{
  List, [], ◌∷◌, ◌++◌, ◌≡◌, refl, some, none, ◌⊎◌, inl, inr, ap, length, filter, ltb, arith, false,
}
use zli.Prelude.{
  List, [], ◌∷◌, ◌++◌, ◌≡◌, refl, some, none, ◌⊎◌, inl, inr, ap, length, filter, ltb, arith, false,
}
use zli.Prelude.{
  List, [], ◌∷◌, ◌++◌, ◌≡◌, refl, some, none, ◌⊎◌, inl, inr, ap, length, filter, ltb, arith, false,
}
use zli.Prelude.{
  List, [], ◌∷◌, ◌++◌, ◌≡◌, refl, some, none, ◌⊎◌, inl, inr, ap, length, filter, ltb, arith, false,
}
use zli.Prelude.{
  List, [], ◌∷◌, ◌++◌, ◌≡◌, refl, some, none, ◌⊎◌, inl, inr, ap, length, filter, ltb, arith, false,
}
use zli.Shell.{SpaceSummary, is_cli_space, last, chosen_space, get_cli_space}

last_split {ℓ} :
    {A : Type ℓ} (x : A) (rest : List A)
    → (before : List A) × (x ∷ rest ≡ before ++ (last x rest ∷ []))
last_split x [] = ([], refl)
last_split x (y ∷ rest) = let (before, e) = last_split y rest in (x ∷ before, ap (λ l. x ∷ l) e)

chosen_space_lem :
    (found : List SpaceSummary)
    → ((found ≡ []) × (chosen_space found ≡ (none, false)))
      ⊎ ((before : List SpaceSummary) × (s : SpaceSummary) × (found ≡ before ++ (s ∷ []))
          × (chosen_space found ≡ (some s, ltb 0 (length before))))
chosen_space_lem [] = inl (refl, refl)
chosen_space_lem (s ∷ []) = inr ([], s, refl, refl)
chosen_space_lem (s ∷ t ∷ rest) =
    let (before, e) = last_split t rest in
    inr (s ∷ before, last t rest, ap (λ l. s ∷ l) e, ground arith)

-- The space that is used is the last of the active spaces named cli-space, there is none when no
-- space is one, and the warning is logged just when there are others before it.
pub get_cli_space_lem :
    (spaces : List SpaceSummary)
    → ((filter is_cli_space spaces ≡ []) × (get_cli_space spaces ≡ (none, false)))
      ⊎ ((before : List SpaceSummary) × (s : SpaceSummary) × (filter is_cli_space spaces
            ≡ before ++ (s ∷ []))
          × (get_cli_space spaces ≡ (some s, ltb 0 (length before))))
unfolding get_cli_space
get_cli_space_lem spaces = chosen_space_lem (filter is_cli_space spaces)
