-- ===== src/Login/Config.antt =====
-- The stored login of services/config/config.service.ts, and `loginSetup`, `logout` and the tables of
-- that file.
use zli.Prelude.{
  String, string_key, option_key, ◌==◌, Bool, true, false, Option, none, some, if◌then◌else◌,
}
use Prim.Native.String.{◌++◌ as text_append}
use zli.Effect.{error, Settled, resolved, rejected}
use zli.Effect.State.{Stateful, throw, await, gets, emit, modify, ◌>>=◌, ◌>>◌}

pub data IdentityProvider : Type 0 where
  google microsoft okta one_login keycloak : IdentityProvider
  unknown_idp : String → IdentityProvider

-- `TokenSet` of openid-client, as far as the client reads it.
pub record TokenSet : Type 0 where
  pub token_type : String
  pub access_token : String
  pub id_token : Option String
  pub refresh_token : Option String

pub data SubjectType : Type 0 where
  user service_account : SubjectType

pub record SubjectSummary : Type 0 where
  pub id : String
  pub email : String
  pub subject_type : SubjectType

-- The stored values that a login is about.
pub record LoginConfig : Type 0 where
  pub token_set : Option TokenSet
  pub session_id : Option String
  pub session_token : Option String
  pub whoami : Option SubjectSummary
  pub idp : Option IdentityProvider
  pub auth_scopes : Option String
  pub client_id : Option String
  pub client_secret : Option String
  pub auth_url : Option String

-- What happens beside the store. MrTAP is a service of the submodule, whose own part of the store is
-- cleared here.
pub data LoginEvent : Type 0 where
  mrtap_cleared ssh_files_removed : LoginEvent
  mrtap_login_data_generated : LoginEvent
  initial_id_token_set : Option String → LoginEvent
  lock_acquired lock_released : LoginEvent
  registered : LoginEvent
  mfa_verified : (code : String) → LoginEvent
  mfa_secret_reset : LoginEvent
  stale_log_in_detected must_log_in runtime_error failed_to_login : LoginEvent

abbrev pub Doing : Type 0 → Type 0
Doing A = Stateful LoginConfig LoginEvent A

-- A text that counts as true.
abbrev pub is_set : Option String → Bool
is_set none = false
is_set (some text) = if text == "" then false else true

unfoldable pub build_common_auth_url : IdentityProvider → Settled String
build_common_auth_url google = resolved "https://accounts.google.com"
build_common_auth_url microsoft = resolved "https://login.microsoftonline.com/common/v2.0"
build_common_auth_url _ = rejected (error "Unable to determine auth url for unhandled idp")

unfoldable pub build_auth_scopes : Option IdentityProvider → Settled String
build_auth_scopes (some google) = resolved "openid email profile"
build_auth_scopes (some microsoft) = resolved "offline_access openid email profile User.Read"
build_auth_scopes (some okta) = resolved "offline_access openid email profile"
build_auth_scopes (some one_login) = resolved "openid profile"
build_auth_scopes (some keycloak) = resolved "offline_access openid email profile"
build_auth_scopes _ = rejected (error "Unknown idp")

-- The label `'' || undefined` of the `switch` has the value `undefined`, so an empty name is none of
-- its cases.
unfoldable pub build_service_url : Option String → Option String
build_service_url none = none
build_service_url (some config_name) =
    let app_name =
      if config_name == "prod"
      then "cloud"
      else if config_name == "stage"
      then "cloud-staging"
      else if config_name == "dev"
      then "cloud-dev"
      else config_name in
    some (text_append "https://" (text_append app_name ".bastionzero.com/"))

pub record ClientSecret : Type 0 where
  pub client_id : String
  pub client_secret : String

pub record OidcClient : Type 0 where
  pub client_id : String
  pub domain : String

-- The answers of the backend to the two requests; the second may be empty.
pub record TokenBackend : Type 0 where
  pub get_client_id_and_secret : IdentityProvider → Settled ClientSecret
  pub get_oidc_client : (email : String) → IdentityProvider → Settled (Option OidcClient)

module _ (b : TokenBackend) where
  abbrev pub setup_common : IdentityProvider → Doing (Unit {0})
  setup_common idp = do
    answer ← await (b.get_client_id_and_secret idp)
    modify (λ c. record c {
      client_id = some answer.client_id;
      client_secret = some answer.client_secret;
    })
    url ← await (build_common_auth_url idp)
    modify (λ c. record c { auth_url = some url })

  unfoldable pub domain_of : IdentityProvider → String → String
  domain_of one_login domain = text_append domain "/oidc/2"
  domain_of _ domain = domain

  abbrev pub store_oidc_client : IdentityProvider → Option OidcClient → Doing (Unit {0})
  store_oidc_client idp none = throw (error "Unknown organization for email")
  store_oidc_client idp (some answer) = modify (λ c. record c {
    client_id = some answer.client_id;
    client_secret = none;
    auth_url = some (domain_of idp answer.domain);
  })

  abbrev pub setup_organization_of : IdentityProvider → String → Bool → Doing (Unit {0})
  setup_organization_of idp email false = throw (error "User email is required for the login")
  setup_organization_of idp email true = do
    answer ← await (b.get_oidc_client email idp)
    store_oidc_client idp answer

  abbrev pub setup_organization : IdentityProvider → Option String → Doing (Unit {0})
  setup_organization idp none = throw (error "User email is required for the login")
  setup_organization idp (some email) = setup_organization_of idp email (is_set (some email))

  -- The `switch` over the provider.
  abbrev pub setup_provider : Option IdentityProvider → Option String → Doing (Unit {0})
  setup_provider (some google) email = setup_common google
  setup_provider (some microsoft) email = setup_common microsoft
  setup_provider (some okta) email = setup_organization okta email
  setup_provider (some one_login) email = setup_organization one_login email
  setup_provider (some keycloak) email = setup_organization keycloak email
  setup_provider _ email = throw (error "Unhandled idp in loginSetup")

  unfoldable pub login_setup : Option IdentityProvider → Option String → Doing (Unit {0})
  login_setup idp email = do
    modify (λ c. record c { idp = idp })
    scopes ← await (build_auth_scopes idp)
    modify (λ c. record c { auth_scopes = some scopes })
    setup_provider idp email
    modify (λ c. record c { whoami = none })

-- `logout`: the session token and the subject stay.
unfoldable pub logout : Doing (Unit {0})
logout = do
  modify (λ c. record c { token_set = none; session_id = none })
  emit mrtap_cleared
  emit ssh_files_removed

-- `me`
abbrev pub subject_of : Option SubjectSummary → Settled SubjectSummary
subject_of none = rejected (error "Subject information is missing. You need to log in")
subject_of (some subject) = resolved subject

unfoldable pub me : Doing SubjectSummary
me = do subject ← gets (λ c. subject_of c.whoami); await subject
