-- ===== src/Login/Handler/Laws.antt =====
-- What a login that returns a subject has stored and verified.
use zli.Prelude.{string_key, Bool, true, false, not, ◌&&◌, Option, some, List, any, ◌≡◌}
use zli.Effect.{returned, exited, threw, Run, resolved}
use zli.Login.Config.{LoginConfig, SubjectSummary, LoginEvent, mfa_verified}
use zli.Login.Tokens.{Session}
use zli.Login.Handler.{MfaActionRequired, totp, reset, LoginSystem}

abbrev pub is_mfa_verified : LoginEvent → Bool
is_mfa_verified (mfa_verified code) = true
is_mfa_verified _ = false

-- A code has to be verified before the login goes on.
abbrev pub is_demanded : MfaActionRequired → Bool
is_demanded totp = true
is_demanded reset = true
is_demanded _ = false

abbrev pub IsVerified : MfaActionRequired → List LoginEvent → Type 0
IsVerified action es = (is_demanded action && not (any is_mfa_verified es)) ≡ false

-- A subject that is returned is the stored one, the session of the registration is stored, and a
-- demanded code was verified.
abbrev pub IsComplete : LoginSystem → Run LoginEvent (Option SubjectSummary) × LoginConfig → Type 0
IsComplete s ((es, returned (some subject)), c) =
    (c.whoami ≡ some subject)
    × (session : Session) × (s.oauth.register ≡ resolved session)
    × (c.session_id ≡ some session.session_id)
    × (c.session_token ≡ some session.session_token)
    × IsVerified s.mfa_action_required es
IsComplete s _ = Unit

module _ (s : LoginSystem) where
  -- How an action ends that the login may go on after.
  abbrev Acts : MfaActionRequired → LoginConfig → Run LoginEvent Bool × LoginConfig → Type 0
  Acts action c ((es, returned true), c') = IsVerified action es × (c' ≡ c)
  Acts action c ((es, returned false), c') = c' ≡ c
  Acts action c ((es, exited code), c') = Unit
  Acts action c ((es, threw failure), c') = Unit
