-- ===== src/Effect.antt =====
-- What a handler does, as a value: the events that it causes, in order, and how it ends. A handler
-- returns, leaves the process by `cleanExit(code)`, or throws. `cleanExit` never returns
-- (handlers/clean-exit.handler.ts: it ends in `process.exit`), so no event follows it.
pub mod Laws
pub mod State
use zli.Prelude.{◌⊎◌, inl, inr, ◌≡◌, refl, ℕ, String, List, [], ◌∷◌, ◌++◌}

-- A thrown error: the text of an `Error` of the program's own, or a `TypeError` of the runtime,
-- for a property that is read of `undefined` or `null`, and the errors whose class is tested
-- (services/oauth/oauth.service.types.ts, and `RPError` or `OPError` of openid-client).
pub data Failure : Type 0 where
  error : String → Failure
  type_error : Failure
  user_not_logged_in refresh_token_error : Failure
  oidc_error : String → Failure

pub data Outcome {ℓ} (A : Type ℓ) : Type ℓ where
  returned : A → Outcome A
  exited : ℕ → Outcome A
  threw : Failure → Outcome A

abbrev pub Run {ℓ κ} : Type ℓ → Type κ → Type (ℓ ⊔ κ)
Run E A = List E × Outcome A

module _ {ℓ κ} {E : Type ℓ} {A : Type κ} where
  abbrev pub pure : A → Run E A
  pure a = ([], returned a)

  -- `await cleanExit(code, logger)`
  abbrev pub clean_exit : ℕ → Run E A
  clean_exit code = ([], exited code)

  abbrev pub throw : Failure → Run E A
  throw f = ([], threw f)

abbrev pub emit {ℓ} : {E : Type ℓ} → E → Run E (Unit {0})
emit e = (e ∷ [], returned tt)

-- `try { … } catch (err) { … }`; leaving the process is not caught.
abbrev pub or_else {ℓ κ} : {E : Type ℓ} {A : Type κ} → Run E A → (Failure → Run E A) → Run E A
or_else (es, returned a) f = (es, returned a)
or_else (es, exited code) f = (es, exited code)
or_else (es, threw x) f = let (fs, r) = f x in (es ++ fs, r)

module _ {ℓ κ μ} {E : Type ℓ} {A : Type κ} {B : Type μ} where
  abbrev pub continue : List E → Outcome A → (A → Run E B) → Run E B
  continue es (returned a) f = let (fs, r) = f a in (es ++ fs, r)
  continue es (exited code) f = (es, exited code)
  continue es (threw x) f = (es, threw x)

  infixl 5 ◌>>=◌
  abbrev pub ◌>>=◌ : Run E A → (A → Run E B) → Run E B
  ◌>>=◌ (es, r) f = continue es r f

infixl 5 ◌>>◌
abbrev pub ◌>>◌ {ℓ κ μ} : {E : Type ℓ} {A : Type κ} {B : Type μ} → Run E A → Run E B → Run E B
m >> n = m >>= λ _. n

-- How a promise, or a call that cannot leave the process, settles.
pub data Settled {ℓ} (A : Type ℓ) : Type ℓ where
  resolved : A → Settled A
  rejected : Failure → Settled A

pub Settled-cases {ℓ} :
    {A : Type ℓ} (r : Settled A) → ((a : A) × (r ≡ resolved a)) ⊎ ((f : Failure) × (r ≡ rejected f))
Settled-cases (resolved a) = inl (a, refl)
Settled-cases (rejected f) = inr (f, refl)
