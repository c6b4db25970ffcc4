-- ===== src/Login/Listener.antt =====
-- The callback listener and `login` of services/oauth/oauth.service.ts.
pub mod Laws
pub mod Settling
use zli.Prelude.{
  ℕ, suc, ◌+◌, nat_key, String, string_key, ◌==◌, Bool, true, false, not, Option, none, some, List,
  [], ◌∷◌, ◌++◌, map, find, if◌then◌else◌,
}
use zli.Effect.{Failure, error, type_error, Outcome, Run, Settled, resolved, rejected}
use zli.Effect.State.{
  Stateful, pure, throw, clean_exit, await, gets, emit, modify, or_else, ◌>>=◌, ◌>>◌,
}
use zli.Login.Config.{
  IdentityProvider, google, microsoft, okta, one_login, keycloak, unknown_idp, TokenSet,
  LoginConfig, LoginEvent, Doing, TokenBackend, login_setup, is_set,
}

pub data CallbackPath : Type 0 where
  webapp_callback login_callback logout_callback other_path : CallbackPath

-- A request to the listener: its path, and the query parameters that are read.
pub record CallbackRequest : Type 0 where
  pub path : CallbackPath
  pub query_error : Option String
  pub query_idp : Option IdentityProvider
  pub query_email : Option String

-- What the exchange of the code is checked against.
pub record Checks : Type 0 where
  pub code_verifier : Option String
  pub nonce : Option String
  pub state : Option String

-- The fields of the service, and the stored login. `redirects` counts the values that were drawn.
pub record Listener : Type 0 where
  pub config : LoginConfig
  pub has_client : Bool
  pub code_verifier : Option String
  pub nonce : Option String
  pub state : Option String
  pub redirects : ℕ

-- `resolve` and `reject` of the promise of `login`, and what else is observed.
pub data ListenerEvent : Type 0 where
  config_event : LoginEvent → ListenerEvent
  promise_rejected : Failure → ListenerEvent
  promise_resolved : ListenerEvent
  redirected : ListenerEvent
  exchange_tried : Checks → ListenerEvent
  tokens_passed : ListenerEvent
  server_closed login_successful logout_successful unhandled_callback : ListenerEvent

abbrev pub Listening : Type 0 → Type 0
Listening A = Stateful Listener ListenerEvent A

-- `generators.codeVerifier()` and `randomAlphaNumericString(45)` as the sequences of what they draw,
-- the client for the identity provider, its exchange of a code for tokens, and the callback that
-- `login` is given.
pub record OidcSystem : Type 0 where
  pub backend : TokenBackend
  pub drawn_verifier : ℕ → String
  pub drawn_state : ℕ → String
  pub setup_client : LoginConfig → Settled (Unit {0})
  pub exchange : Checks → Settled TokenSet
  pub callback : TokenSet → Doing (Unit {0})

unfoldable pub parse_idp_type : Option IdentityProvider → Option IdentityProvider
parse_idp_type (some google) = some google
parse_idp_type (some microsoft) = some microsoft
parse_idp_type (some okta) = some okta
parse_idp_type (some one_login) = some one_login
parse_idp_type (some keycloak) = some keycloak
parse_idp_type _ = none

abbrev pub at_config :
    {A : Type 0} → Listener → Run LoginEvent A × LoginConfig → Run ListenerEvent A × Listener
at_config l ((es, r), c) = ((map config_event es, r), record l { config = c })

abbrev pub on_config : {A : Type 0} → Doing A → Listening A
on_config m l = at_config l (m l.config)

abbrev pub reject_if_error : Option String → Listening (Unit {0})
reject_if_error none = pure tt
reject_if_error (some text) = if text == "" then pure tt else emit (promise_rejected (error text))

-- `reject(…)` where a value is undefined; what follows is run all the same.
abbrev pub reject_unless : {A : Type 0} → Option A → String → Listening (Unit {0})
reject_unless none text = emit (promise_rejected (error text))
reject_unless (some a) text = pure tt

abbrev pub given {ℓ} : {A : Type ℓ} → Option A → String → Settled A
given none text = rejected (error text)
given (some a) text = resolved a

-- The prompt that a provider is asked for, and whether it is given the email.
abbrev pub prompt_of : IdentityProvider → Settled String
prompt_of google = resolved "consent"
prompt_of okta = resolved "consent"
prompt_of microsoft = resolved "login"
prompt_of one_login = resolved "login"
prompt_of keycloak = resolved "login"
prompt_of (unknown_idp name) = rejected (error "Unsupported IdP")

-- `getAuthUrl`, less the parameters of the URL; the client is there when it is called.
unfoldable pub get_auth_url : Listening String
get_auth_url = do
  nonce ← gets (λ l. given l.nonce "Unable to get authUrl with undefined nonce")
  await nonce
  idp ← gets (λ l. given l.config.idp "Unable to get authUrl from undefined idp")
  provider ← await idp
  await (prompt_of provider)

-- What reaches the service while it waits: requests, each handled to its end before the next, and
-- the timeout of 60 seconds.
pub data Arrival : Type 0 where
  request : CallbackRequest → Arrival
  timeout : Arrival

abbrev pub no_client : String
no_client = "Unable to parse idp response with undefined OIDC client"

abbrev pub no_verifier : String
no_verifier = "Unable to parse idp response with undefined code verifier"

abbrev pub no_nonce : String
no_nonce = "Unable to parse idp response with undefined nonce"

module _ (s : OidcSystem) where
  abbrev pub draw : Listener → Listener
  draw l = record l {
    has_client = true;
    code_verifier = some (s.drawn_verifier l.redirects);
    state = some (s.drawn_state l.redirects);
    redirects = suc l.redirects;
  }

  -- The `try` block of `/webapp-callback`.
  unfoldable pub redirect : Option IdentityProvider → Option String → Listening (Unit {0})
  redirect provider email = do
    on_config (login_setup s.backend provider email)
    client ← gets (λ l. s.setup_client l.config)
    await client
    modify draw
    get_auth_url
    emit redirected

  abbrev pub on_webapp_callback : CallbackRequest → Listening (Unit {0})
  on_webapp_callback r = do
    reject_unless (parse_idp_type r.query_idp)
        "The selected identity provider is not currently supported"
    or_else (redirect (parse_idp_type r.query_idp) r.query_email)
        (λ err. emit (promise_rejected err))

  abbrev pub client_of : Bool → Option (Unit {0})
  client_of true = some tt
  client_of false = none

  abbrev pub checks_of : Listener → Checks
  checks_of l = record { code_verifier = l.code_verifier; nonce = l.nonce; state = l.state }

  -- A call on a client that is not there.
  abbrev pub call_client : Bool → Settled (Unit {0})
  call_client true = resolved tt
  call_client false = rejected type_error

  -- The `try` block around the callback that writes to the store.
  abbrev pub pass_on : TokenSet → Listening (Unit {0})
  pass_on tokens =
      or_else (on_config (s.callback tokens) >> emit tokens_passed) (λ e. emit (promise_rejected e))

  unfoldable pub finish_login : Listening (Unit {0})
  finish_login = do emit server_closed; emit login_successful; emit promise_resolved

  abbrev pub exchange_code : Checks → Listening (Unit {0})
  exchange_code checks = do
    emit (exchange_tried checks)
    tokens ← await (s.exchange checks)
    pass_on tokens
    finish_login

  abbrev pub call_exchange : Listening (Unit {0})
  call_exchange = do
    called ← gets (λ l. call_client l.has_client)
    await called
    checks ← gets checks_of
    exchange_code checks

  abbrev pub on_login_callback : Listening (Unit {0})
  on_login_callback = do
    client ← gets (λ l. client_of l.has_client)
    reject_unless client no_client
    verifier ← gets (λ l. l.code_verifier)
    reject_unless verifier no_verifier
    nonce ← gets (λ l. l.nonce)
    reject_unless nonce no_nonce
    call_exchange

  abbrev pub on_path : CallbackRequest → CallbackPath → Listening (Unit {0})
  on_path r webapp_callback = on_webapp_callback r
  on_path r login_callback = on_login_callback
  on_path r logout_callback = do emit logout_successful; emit server_closed; emit promise_resolved
  on_path r other_path = emit unhandled_callback

  -- `requestListener`. An error in the query rejects the promise, and the request is handled still.
  unfoldable pub request_listener : CallbackRequest → Listening (Unit {0})
  request_listener r = reject_if_error r.query_error >> on_path r r.path

  abbrev pub on_arrival : Arrival → Listening (Unit {0})
  on_arrival (request r) = request_listener r
  on_arrival timeout = emit (promise_rejected (error "Login timeout reached"))

  -- An error in the listener ends the handling of its request, and nothing else.
  unfoldable pub listen : List Arrival → Listener → List ListenerEvent × Listener
  listen [] l = ([], l)
  listen (a ∷ arrivals) l =
      let ((es, r), l') = on_arrival a l in let (fs, l'') = listen arrivals l' in (es ++ fs, l'')

abbrev pub settles : ListenerEvent → Option (Settled (Unit {0}))
settles promise_resolved = some (resolved tt)
settles (promise_rejected failure) = some (rejected failure)
settles _ = none

abbrev pub or_later {ℓ} : {A : Type ℓ} → Option A → Option A → Option A
or_later none later = later
or_later (some a) later = some a

-- How the promise is settled: by the first call of `resolve` or `reject`.
unfoldable pub settlement : List ListenerEvent → Option (Settled (Unit {0}))
settlement [] = none
settlement (e ∷ es) = or_later (settles e) (settlement es)

abbrev pub callback_ports : List ℕ
callback_ports = 49172 ∷ 51252 ∷ 58243 ∷ 59360 ∷ 62109 ∷ []

-- The port of the listener: the first of the list that is not in use, or the configured one.
unfoldable pub port_to_use : (in_use : ℕ → Bool) → (configured : ℕ) → Option ℕ
port_to_use in_use configured =
    if configured == 0
    then find (λ port. not (in_use port)) callback_ports
    else if in_use configured
    then none
    else some configured

-- The service before a login: no field is set.
abbrev pub new_listener : LoginConfig → Listener
new_listener config = record {
  config = config;
  has_client = false;
  code_verifier = none;
  nonce = none;
  state = none;
  redirects = 0;
}

module _ (s : OidcSystem) (arrivals : List Arrival) where
  abbrev pub settle :
      List ListenerEvent × Listener → Run ListenerEvent (Option (Settled (Unit {0}))) × Listener
  settle (es, l) = ((es, Outcome.returned (settlement es)), l)

  abbrev pub login_at : Option String → Option ℕ → Listening (Option (Settled (Unit {0})))
  login_at n none = clean_exit 1
  login_at n (some port) = λ l. settle (listen s arrivals (record l { nonce = n }))

  -- `login`: how its promise is settled, if it is.
  unfoldable pub login :
      (in_use : ℕ → Bool)
      → (configured : ℕ) → Option String
      → Listening (Option (Settled (Unit {0})))
  login in_use configured nonce = login_at nonce (port_to_use in_use configured)
