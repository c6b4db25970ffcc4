-- ===== src/Connect/TargetUser.antt =====
-- `connectCheckAllowedTargetUsers` and `getEnvironmentFromName` of utils/utils.ts.
use zli.Prelude.{eq_iff}
use zli.Prelude.{false}
use zli.Prelude.{
  ap, find, find-eq-none, find_sound, Option-cases, String, string_key, ◌==◌, Bool, true, not, ◌⊎◌,
  inl, inr, Bool-cases, ◌↔◌, Option, none, some, List, [], ◌∷◌, ◌≡◌, refl, any, arith,
  if◌then◌else◌,
}
use zli.Policy.Identifiers.{EnvironmentSummary}
use zli.Effect.{Run, returned, exited, pure, emit, clean_exit, ◌>>◌}

pub data LogEvent : Type 0 where
  no_permission_as no_permission_as_any using_target_user : String → LogEvent
  allowed_target_users : List String → LogEvent
  multiple_allowed : (target_name : String) → LogEvent
  example : (user target_name : String) → LogEvent
  no_such_environment : String → LogEvent

-- `includes(allowedTargetUsers, providedTargetUser)`
abbrev pub includes : List String → String → Bool
includes allowed user = any (λ u. u == user) allowed

unfoldable pub check_provided : String → List String → Run LogEvent String
check_provided provided allowed =
    if not (includes allowed provided)
    then (do emit (no_permission_as provided); emit (allowed_target_users allowed); clean_exit 1)
    else pure provided

unfoldable pub check_default : String → List String → Run LogEvent String
check_default target_name [] = do emit (no_permission_as_any target_name); clean_exit 1
check_default target_name (user ∷ []) = do emit (using_target_user user); pure user
check_default target_name (user ∷ more ∷ rest) = do
  emit (multiple_allowed target_name)
  emit (example user target_name)
  emit (allowed_target_users (user ∷ more ∷ rest))
  clean_exit 1

-- `if (providedTargetUser)` holds of a text that is not empty.
unfoldable pub connect_check_allowed_target_users :
    String → Option String → List String → Run LogEvent String
connect_check_allowed_target_users target_name none allowed = check_default target_name allowed
connect_check_allowed_target_users target_name (some provided) allowed =
    if provided == "" then check_default target_name allowed else check_provided provided allowed

-- `if (!environment) { logger.error(...); await cleanExit(1, logger) }`
abbrev pub environment_or_exit :
    String → Option EnvironmentSummary → Run LogEvent EnvironmentSummary
environment_or_exit environment_name none = do
  emit (no_such_environment environment_name)
  clean_exit 1
environment_or_exit environment_name (some environment) = pure environment

unfoldable pub get_environment_from_name :
    String → List EnvironmentSummary → Run LogEvent EnvironmentSummary
get_environment_from_name environment_name envs =
    environment_or_exit environment_name
      (find (λ (e : EnvironmentSummary). e.name == environment_name) envs)

-- Either an environment of the name is returned, or the run exits with 1 and none has the name.
pub get_environment_from_name_lem :
    (environment_name : String) (envs : List EnvironmentSummary)
    → ((environment : EnvironmentSummary) × ((get_environment_from_name environment_name envs).1
          ≡ returned environment)
        × (environment.name ≡ environment_name))
      ⊎ (((get_environment_from_name environment_name envs).1 ≡ exited 1)
          × (any (λ (e : EnvironmentSummary). e.name == environment_name) envs ≡ false))
unfolding get_environment_from_name
get_environment_from_name_lem environment_name envs =
    elim (Option-cases (find (λ (e : EnvironmentSummary). e.name == environment_name) envs)) [
      | inl absent ↦ inr (
        ap (λ o. (environment_or_exit environment_name o).1) absent,
        find-eq-none (λ (e : EnvironmentSummary). e.name == environment_name) envs absent,
      )
      | inr (e, found) ↦ inl (
        e,
        ap (λ o. (environment_or_exit environment_name o).1) found,
        (eq_iff e.name environment_name).0
            (find_sound (λ (x : EnvironmentSummary). x.name == environment_name) envs found),
      )
    ]

-- The user that the connect string gives, if it gives one.
abbrev pub given : Option String → Option String
given none = none
given (some provided) = if provided == "" then none else some provided

-- What the check promises: the user is the one given, if it is allowed, or else the only one allowed.
abbrev pub Chooses : Option String → List String → String → Type 0
Chooses none allowed user = allowed ≡ user ∷ []
Chooses (some provided) allowed user = (user ≡ provided) × (includes allowed provided ≡ true)

default_chooses :
    (target_name : String) (allowed : List String) (user : String)
    → ((check_default target_name allowed).1 ≡ returned user) ↔ (allowed ≡ user ∷ [])
unfolding check_default
default_chooses target_name [] user = (λ h. cc, λ h. cc)
default_chooses target_name (u ∷ []) user = (λ h. ground arith, λ h. ground arith)
default_chooses target_name (u ∷ more ∷ rest) user = (λ h. cc, λ h. cc)

default_ends :
    (target_name : String) (allowed : List String)
    → ((check_default target_name allowed).1 ≡ exited 1)
      ⊎ ((u : String) × ((check_default target_name allowed).1 ≡ returned u))
unfolding check_default
default_ends target_name [] = inl refl
default_ends target_name (u ∷ []) = inr (u, refl)
default_ends target_name (u ∷ more ∷ rest) = inl refl

provided_chooses :
    (provided : String) (allowed : List String) (user : String)
    → ((check_provided provided allowed).1 ≡ returned user)
      ↔ ((user ≡ provided) × (includes allowed provided ≡ true))
unfolding check_provided
provided_chooses provided allowed user = (λ h. ground arith, λ h. ground arith)

provided_ends :
    (provided : String) (allowed : List String)
    → ((check_provided provided allowed).1 ≡ exited 1)
      ⊎ ((u : String) × ((check_provided provided allowed).1 ≡ returned u))
unfolding check_provided
provided_ends provided allowed = elim (Bool-cases (includes allowed provided)) [
  | inl e ↦ inr (provided, ground arith)
  | inr e ↦ inl (ground arith)
]

-- The check returns a user exactly if the user given is allowed and it is that user, or if none is
-- given and it is the only one allowed. In every other case it exits with 1.
connect_check_lem :
    (target_name : String) (provided : Option String) (allowed : List String) (user : String)
    → (((connect_check_allowed_target_users target_name provided allowed).1 ≡ returned user)
        ↔ Chooses (given provided) allowed user)
      × (((connect_check_allowed_target_users target_name provided allowed).1 ≡ exited 1)
          ⊎ ((u : String) × ((connect_check_allowed_target_users target_name provided allowed).1
                ≡ returned u)))
unfolding connect_check_allowed_target_users
connect_check_lem target_name none allowed user =
    (default_chooses target_name allowed user, default_ends target_name allowed)
connect_check_lem target_name (some provided) allowed user = elim (Bool-cases (provided == "")) [
  | inl empty ↦
      rw empty (default_chooses target_name allowed user, default_ends target_name allowed)
  | inr named ↦ rw named (provided_chooses provided allowed user, provided_ends provided allowed)
]
