-- ===== src/Effect/State.antt =====
-- A handler that reads and writes a store: `Run` with the store passed on. What was written before a
-- failure stays written.
use zli.Prelude.{ℕ, List, [], ◌∷◌, ◌++◌}
use zli.Effect.{Failure, returned, exited, threw, Run, Settled, resolved, rejected}

abbrev pub Stateful {ℓ κ μ} : Type ℓ → Type κ → Type μ → Type (ℓ ⊔ κ ⊔ μ)
Stateful S E A = S → Run E A × S

module _ {ℓ κ μ} {S : Type ℓ} {E : Type κ} {A : Type μ} where
  abbrev pub pure : A → Stateful S E A
  pure a s = (([], returned a), s)

  abbrev pub clean_exit : ℕ → Stateful S E A
  clean_exit code s = (([], exited code), s)

  abbrev pub throw : Failure → Stateful S E A
  throw failure s = (([], threw failure), s)

  abbrev pub await : Settled A → Stateful S E A
  await (resolved a) s = (([], returned a), s)
  await (rejected failure) s = (([], threw failure), s)

  abbrev pub gets : (S → A) → Stateful S E A
  gets f s = (([], returned (f s)), s)

module _ {ℓ κ} {S : Type ℓ} {E : Type κ} where
  abbrev pub emit : E → Stateful S E (Unit {0})
  emit e s = ((e ∷ [], returned tt), s)

  abbrev pub modify : (S → S) → Stateful S E (Unit {0})
  modify f s = (([], returned tt), f s)

abbrev pub after {ℓ κ μ} :
    {S : Type ℓ} {E : Type κ} {A : Type μ} → List E → Run E A × S → Run E A × S
after es ((fs, r), s) = ((es ++ fs, r), s)

module _ {ℓ κ μ ν} {S : Type ℓ} {E : Type κ} {A : Type μ} {B : Type ν} where
  abbrev pub continue : Run E A × S → (A → Stateful S E B) → Run E B × S
  continue ((es, returned a), s) f = after es (f a s)
  continue ((es, exited code), s) f = ((es, exited code), s)
  continue ((es, threw failure), s) f = ((es, threw failure), s)

  infixl 5 ◌>>=◌
  abbrev pub ◌>>=◌ : Stateful S E A → (A → Stateful S E B) → Stateful S E B
  ◌>>=◌ m f s = continue (m s) f

infixl 5 ◌>>◌
abbrev pub ◌>>◌ {ℓ κ μ ν} :
    {S : Type ℓ} {E : Type κ} {A : Type μ} {B : Type ν}
    → Stateful S E A
    → Stateful S E B
    → Stateful S E B
m >> n = m >>= λ _. n

module _ {ℓ κ μ} {S : Type ℓ} {E : Type κ} {A : Type μ} where
  abbrev pub caught : Run E A × S → (Failure → Stateful S E A) → Run E A × S
  caught ((es, returned a), s) f = ((es, returned a), s)
  caught ((es, exited code), s) f = ((es, exited code), s)
  caught ((es, threw failure), s) f = after es (f failure s)

  -- `try { … } catch (err) { … }`; leaving the process is not caught.
  abbrev pub or_else : Stateful S E A → (Failure → Stateful S E A) → Stateful S E A
  or_else m f s = caught (m s) f
