-- ===== src/Login/ServiceAccount.antt =====
-- `loginServiceAccountHandler` and `createGCPServiceAccountTokenSet` of
-- handlers/login/login.handler.ts.
pub mod Laws
use zli.Prelude.{
  ℕ, ◌+◌, ◌*◌, String, string_key, ◌==◌, Bool, true, false, Option, none, some, List, [], ◌∷◌, ◌++◌,
  if◌then◌else◌,
}
use Prim.Native.String.{◌++◌ as text_append}
use zli.Effect.{Settled, resolved, rejected}
use zli.Effect.State.{
  Stateful, pure, throw, clean_exit, await, gets, emit, modify, or_else, ◌>>=◌, ◌>>◌,
}
use zli.Login.Config.{
  LoginConfig, TokenSet, SubjectSummary, Doing, mrtap_login_data_generated, failed_to_login, is_set,
  logout,
}
use zli.Login.Tokens.{OAuthSystem, Session, is_authenticated}
use zli.Login.Handler.{store_tokens}

-- The two files of credentials, as far as they are read.
pub record ProviderCredentials : Type 0 where
  pub client_id : String
  pub client_email : String
  pub private_key_id : String
  pub private_key : String
  pub token_uri : String
  pub jwks_url : String

pub record BzeroCredentials : Type 0 where
  pub org_id : String
  pub mfa_secret : Option String

-- The claims of the id token and of the access token, which has its type beside them.
pub record ServiceClaims : Type 0 where
  pub aud : String
  pub azp : String
  pub email : String
  pub email_verified : Bool
  pub exp : ℕ
  pub org_id : String
  pub iss : String
  pub nonce : String
  pub sub : String
  pub iat : ℕ
  pub token_type : Option String

pub record JwtHeader : Type 0 where
  pub alg : String
  pub kid : String
  pub jku : String

pub record ServiceAccountSummary : Type 0 where
  pub email : String
  pub enabled : Bool

-- What the handler asks of its services: the contents of the two files, the library that signs, the
-- code that goes with a secret, and the backend, whose cookies are stored as a session. `week_from_now` was computed when the file was
-- loaded, `now` is the time of the call, in seconds.
pub record ServiceAccountSystem : Type 0 where
  pub oauth : OAuthSystem
  pub generate_login_data : Settled (Unit {0})
  pub nonce : String
  pub provider_credentials : Settled ProviderCredentials
  pub bzero_credentials : Settled BzeroCredentials
  pub service_url : String
  pub week_from_now : ℕ
  pub now : ℕ
  pub sign : ServiceClaims → (key : String) → JwtHeader → Settled String
  pub set_initial_id_token : Option String → Settled (Unit {0})
  pub totp : (secret : String) → String
  pub login_service_account : (passcode : String) → Settled (ServiceAccountSummary × Session)

abbrev pub gcp_token_uri : String
gcp_token_uri = "https://oauth2.googleapis.com/token"

abbrev pub gcp_jwks_url_prefix : String
gcp_jwks_url_prefix = "https://www.googleapis.com/service_accounts/v1/jwk/"

unfoldable pub jwks_url_of : ProviderCredentials → String
jwks_url_of provider =
    if provider.token_uri == gcp_token_uri
    then text_append gcp_jwks_url_prefix provider.client_email
    else provider.jwks_url

module _ (s : ServiceAccountSystem) where
  unfoldable pub claims_of : ProviderCredentials → BzeroCredentials → Option String → ServiceClaims
  claims_of provider bzero token_type = record {
    aud = s.service_url;
    azp = provider.client_id;
    email = provider.client_email;
    email_verified = true;
    exp = s.week_from_now;
    org_id = bzero.org_id;
    iss = provider.client_email;
    nonce = s.nonce;
    sub = provider.client_id;
    iat = s.now;
    token_type = token_type;
  }

  unfoldable pub header_of : ProviderCredentials → JwtHeader
  header_of provider = record {
    alg = "RS256";
    kid = provider.private_key_id;
    jku = jwks_url_of provider;
  }

  unfoldable pub create_gcp_service_account_token_set :
      ProviderCredentials → BzeroCredentials → Doing TokenSet
  create_gcp_service_account_token_set provider bzero = do
    id_token ←
        await (s.sign (claims_of provider bzero none) provider.private_key (header_of provider))
    access_token ← await (
        s.sign (claims_of provider bzero (some "Access Token")) provider.private_key
          (header_of provider))
    pure (record {
      token_type = "Bearer";
      access_token = access_token;
      id_token = some id_token;
      refresh_token = some "";
    })

  -- The credentials that were read, if they were.
  abbrev pub unless_authenticated : Bool → Doing (Option BzeroCredentials)
  unless_authenticated true = pure none
  unless_authenticated false = do
    provider ← await s.provider_credentials
    bzero ← await s.bzero_credentials
    tokens ← create_gcp_service_account_token_set provider bzero
    store_tokens s.set_initial_id_token tokens
    pure (some bzero)

  -- The `try` block; nothing if it failed.
  unfoldable pub try_login : Doing (Option (Option BzeroCredentials))
  try_login =
      or_else
        (do
          await s.generate_login_data
          emit mrtap_login_data_generated
          fresh ← is_authenticated s.oauth s.oauth.now
          credentials ← unless_authenticated fresh
          pure (some credentials))
        (λ e. do emit failed_to_login; pure none)

  abbrev pub credentials_or_read : Option BzeroCredentials → Doing BzeroCredentials
  credentials_or_read none = await s.bzero_credentials
  credentials_or_read (some bzero) = pure bzero

  abbrev pub secret_of : Option String → Doing String
  secret_of none = clean_exit 1
  secret_of (some secret) = if secret == "" then clean_exit 1 else pure secret

  abbrev pub if_enabled : Bool → Doing (Option SubjectSummary)
  if_enabled false = clean_exit 1
  if_enabled true = do
    subject ← await s.oauth.subject_me
    modify (λ c. record c { whoami = some subject })
    pure (some subject)

  abbrev pub after_login : Option (Option BzeroCredentials) → Doing (Option SubjectSummary)
  after_login none = pure none
  after_login (some credentials) = do
    bzero ← credentials_or_read credentials
    secret ← secret_of bzero.mfa_secret
    (summary, session) ← await (s.login_service_account (s.totp secret))
    modify (λ c. record c {
      session_id = some session.session_id;
      session_token = some session.session_token;
    })
    if_enabled summary.enabled

  unfoldable pub login_service_account_handler : Doing (Option SubjectSummary)
  login_service_account_handler = do logout; done ← try_login; after_login done
