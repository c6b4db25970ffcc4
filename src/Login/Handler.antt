-- ===== src/Login/Handler.antt =====
-- handlers/login/login.handler.ts: logging a user in, with multi-factor authentication, and logging a
-- service account in. The questions that the user is asked are answers in the model.
pub mod Laws
use zli.Prelude.{
  ℕ, String, string_key, ◌==◌, Bool, true, false, Option, none, some, List, [], ◌∷◌, ◌++◌,
  if◌then◌else◌,
}
use Prim.Native.String.{◌++◌ as text_append}
use zli.Effect.{
  Failure, error, type_error, Run, Outcome, returned, exited, threw, Settled, resolved, rejected,
}
use zli.Effect.State.{
  Stateful, pure, throw, clean_exit, await, gets, emit, modify, or_else, ◌>>=◌, ◌>>◌,
}
use zli.Login.Config.{
  LoginConfig, TokenSet, SubjectSummary, Doing, LoginEvent, mrtap_login_data_generated,
  initial_id_token_set, mfa_verified, mfa_secret_reset, failed_to_login, is_set, logout,
}
use zli.Login.Tokens.{OAuthSystem, is_authenticated, register_user}
use zli.Login.Listener.{
  OidcSystem, Arrival, Listener, ListenerEvent, config_event, new_listener, login,
}

pub data MfaActionRequired : Type 0 where
  no_mfa totp reset reset_defer_allowed other_action : MfaActionRequired

-- What the handler of users asks of its services and of the user. `totp_answer` and `setup_answer`
-- are nothing when the user cancels.
pub record LoginSystem : Type 0 where
  pub oauth : OAuthSystem
  pub oidc : OidcSystem
  pub port_in_use : ℕ → Bool
  pub configured_port : ℕ
  pub arrivals : List Arrival
  pub generate_login_data : Settled (Unit {0})
  pub nonce : String
  pub set_initial_id_token : Option String → Settled (Unit {0})
  pub mfa_action_required : MfaActionRequired
  pub mfa_argument : Option String
  pub totp_answer : Option String
  pub setup_answer : Option String
  pub set_up_now : Bool
  pub mfa_summary : Settled (Unit {0})
  pub reset_secret : Settled (Unit {0})
  pub verify_totp : String → Settled (Unit {0})

-- What `getIdToken` gives.
abbrev pub id_token_of : Option TokenSet → Option String
id_token_of none = none
id_token_of (some tokens) = tokens.id_token

abbrev pub set_initial : (Option String → Settled (Unit {0})) → Doing (Unit {0})
set_initial service = do
  id_token ← gets (λ c. id_token_of c.token_set)
  await (service id_token)
  emit (initial_id_token_set id_token)

-- The callback that `login` is given, and the same lines of the handler of service accounts.
unfoldable pub store_tokens : (Option String → Settled (Unit {0})) → TokenSet → Doing (Unit {0})
store_tokens service tokens = do
  modify (λ c. record c { token_set = some tokens })
  set_initial service

abbrev pub config_events : List ListenerEvent → List LoginEvent
config_events [] = []
config_events (config_event e ∷ es) = e ∷ config_events es
config_events (_ ∷ es) = config_events es

abbrev pub settled_outcome : Option (Settled (Unit {0})) → Outcome (Unit {0})
settled_outcome none = threw type_error
settled_outcome (some (resolved done)) = returned done
settled_outcome (some (rejected failure)) = threw failure

abbrev pub promise_outcome : Outcome (Option (Settled (Unit {0}))) → Outcome (Unit {0})
promise_outcome (returned settled) = settled_outcome settled
promise_outcome (exited code) = exited code
promise_outcome (threw failure) = threw failure

abbrev pub as_config_run :
    Run ListenerEvent (Option (Settled (Unit {0}))) × Listener
    → Run LoginEvent (Unit {0}) × LoginConfig
as_config_run ((es, r), l) = ((config_events es, promise_outcome r), l.config)

module _ (s : LoginSystem) where
  -- `await oAuthService.login(…)`. The arrivals are those until the promise is settled; without any
  -- that settles it the handler does not go on, which is outside the model.
  unfoldable pub oauth_login : Doing (Unit {0})
  oauth_login c = as_config_run (
      login (record s.oidc { callback = store_tokens s.set_initial_id_token }) s.arrivals
        s.port_in_use s.configured_port (some s.nonce) (new_listener c))

  abbrev pub unless_authenticated : Bool → Doing (Unit {0})
  unless_authenticated true = pure tt
  unless_authenticated false = oauth_login

  -- The `try` block, and whether it did not fail.
  unfoldable pub try_login : Doing Bool
  try_login =
      or_else
        (do
          await s.generate_login_data
          emit mrtap_login_data_generated
          fresh ← is_authenticated s.oauth s.oauth.now
          unless_authenticated fresh
          pure true)
        (λ e. do emit failed_to_login; pure false)

  abbrev pub verify : String → Doing Bool
  verify code = do await (s.verify_totp code); emit (mfa_verified code); pure true

  -- `if (code) … `, with whether the code was verified.
  abbrev pub verify_if_set : Option String → Doing Bool
  verify_if_set none = pure false
  verify_if_set (some code) = if code == "" then pure false else verify code

  unfoldable pub set_up_mfa : Doing Bool
  set_up_mfa = do await s.reset_secret; emit mfa_secret_reset; verify_if_set s.setup_answer

  -- The code of the command line, or else the one that the user is asked for.
  abbrev pub totp_code : Option String
  totp_code = if is_set s.mfa_argument then s.mfa_argument else s.totp_answer

  abbrev pub set_up_if : Bool → Doing Bool
  set_up_if true = do success ← set_up_mfa; pure true
  set_up_if false = pure true

  -- The `switch` over the action that is required, with whether the login goes on.
  abbrev pub act_on_mfa : MfaActionRequired → Doing Bool
  act_on_mfa no_mfa = pure true
  act_on_mfa totp = verify_if_set totp_code
  act_on_mfa reset = set_up_mfa
  act_on_mfa reset_defer_allowed = do await s.mfa_summary; set_up_if s.set_up_now
  act_on_mfa other_action = pure true

  abbrev pub store_me : Doing (Option SubjectSummary)
  store_me = do
    subject ← await s.oauth.subject_me
    modify (λ c. record c { whoami = some subject })
    pure (some subject)

  abbrev pub finish : Bool → Doing (Option SubjectSummary)
  finish false = pure none
  finish true = store_me

  abbrev pub after_login : Bool → Doing (Option SubjectSummary)
  after_login false = pure none
  after_login true = do
    register_user s.oauth
    goes_on ← act_on_mfa s.mfa_action_required
    finish goes_on

  unfoldable pub login_user_handler : Doing (Option SubjectSummary)
  login_user_handler = do logout; done ← try_login; after_login done
