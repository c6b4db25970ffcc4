-- ===== src/Effect/Laws.antt =====
-- What holds of the events of a run.
use zli.Prelude.{List, ◌≡◌, refl, All, All-append}
use zli.Effect.{Outcome, returned, exited, threw, Run, continue, ◌>>=◌}

module _ {ℓ κ μ ν} {E : Type ℓ} {A : Type κ} {B : Type μ} (P : E → Type ν) where
  continue-All :
      (es : List E) (r : Outcome A) (f : A → Run E B)
      → All P es
      → ((a : A) → r ≡ returned a → All P (f a).0)
      → All P (continue es r f).0
  continue-All es (returned a) f h k = All-append P es (f a).0 h (k a refl)
  continue-All es (exited code) f h k = h
  continue-All es (threw failure) f h k = h

  -- If the events of `m` and of what follows it satisfy `P`, so do those of the whole.
  pub >>=-All :
      (m : Run E A) (f : A → Run E B)
      → All P m.0
      → ((a : A) → m.1 ≡ returned a → All P (f a).0)
      → All P (m >>= f).0
  >>=-All (es, r) f h k = continue-All es r f h k
