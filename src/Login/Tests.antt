-- ===== src/Login/Tests.antt =====
-- A login whose tokens have expired, a listener that gets a redirect and then a code, and a service
-- account.
use zli.Prelude.{string_key, ◌==◌, ltb, true, false, none, some, List, [], ◌∷◌, All, ◌≡◌, refl, inl}
use zli.Effect.{resolved, returned}
use zli.Effect.State.{pure}
use zli.Login.Config.{
  LoginConfig, TokenSet, SubjectSummary, user, google, TokenBackend, logout, login_setup,
  build_auth_scopes, build_common_auth_url,
}
use zli.Login.Tokens.{
  OAuthSystem, is_authenticated, register_user, get_token_set, get_id_token_and_exit_on_error,
}
use zli.Login.Tokens.Laws.{IsOrderly, get_token_set-IsOrderly}
use zli.Login.Tokens.Exits.{EndsLoggedIn, get_id_token-EndsLoggedIn}
use zli.Login.Listener.{
  OidcSystem, CallbackRequest, webapp_callback, login_callback, Arrival, request, timeout, Listener,
  new_listener, listen, settlement, request_listener, parse_idp_type, redirect, get_auth_url,
  finish_login, login, port_to_use,
}
use zli.Login.Listener.Laws.{IsFair, IsPaired, listen-IsPaired}
use zli.Login.Handler.{LoginSystem, totp, login_user_handler, try_login, oauth_login, store_tokens}
use zli.Login.Handler.Laws.{IsComplete}
use zli.Login.ServiceAccount.{ServiceAccountSystem, login_service_account_handler}
use zli.Login.ServiceAccount.Laws.{
  IsComplete as IsServiceComplete, login_service_account_handler-IsComplete,
}

abbrev old_tokens : TokenSet
old_tokens = record {
  token_type = "Bearer";
  access_token = "a1";
  id_token = some "i1";
  refresh_token = some "r1";
}

abbrev new_tokens : TokenSet
new_tokens = record {
  token_type = "Bearer";
  access_token = "a2";
  id_token = some "i2";
  refresh_token = none;
}

abbrev subject : SubjectSummary
subject = record { id = "1"; email = "a@b.c"; subject_type = user }

abbrev stored : LoginConfig
stored = record {
  token_set = some old_tokens;
  session_id = some "s";
  session_token = some "t";
  whoami = some subject;
  idp = some google;
  auth_scopes = none;
  client_id = none;
  client_secret = none;
  auth_url = none;
}

abbrev same : LoginConfig → LoginConfig
same c = c

-- The old tokens are expired; the refresh gives the new ones.
abbrev system : OAuthSystem
system = record {
  expired = λ now tokens. tokens.access_token == "a1";
  claims_exp = λ tokens. resolved (some 2000);
  now = 1000;
  later = 1001;
  lock = resolved tt;
  waited = same;
  exits_first = true;
  setup_client = λ c. resolved tt;
  refresh_tokens = λ tokens. resolved new_tokens;
  register = resolved (record { session_id = "s2"; session_token = "t2" });
  subject_me = resolved subject;
}

get_token_set-IsOrderly_example : IsOrderly (get_token_set system stored)
get_token_set-IsOrderly_example = get_token_set-IsOrderly system stored

get_id_token-EndsLoggedIn_example : EndsLoggedIn (get_id_token_and_exit_on_error system stored)
get_id_token-EndsLoggedIn_example = get_id_token-EndsLoggedIn system stored

abbrev backend : TokenBackend
backend = record {
  get_client_id_and_secret = λ idp. resolved (record { client_id = "c"; client_secret = "k" });
  get_oidc_client = λ email idp. resolved none;
}

abbrev oidc : OidcSystem
oidc = record {
  backend = backend;
  drawn_verifier = λ k. "v";
  drawn_state = λ k. "st";
  setup_client = λ c. resolved tt;
  exchange = λ checks. resolved new_tokens;
  callback = λ tokens. pure tt;
}

abbrev redirect_request : CallbackRequest
redirect_request = record {
  path = webapp_callback;
  query_error = none;
  query_idp = some google;
  query_email = some "a@b.c";
}

abbrev code_request : CallbackRequest
code_request = record redirect_request { path = login_callback }

abbrev arrivals : List Arrival
arrivals = request redirect_request ∷ request code_request ∷ timeout ∷ []

abbrev waiting : Listener
waiting = record (new_listener stored) { nonce = some "n" }

listen-IsPaired_example :
    All (IsFair oidc (some "n")) (listen oidc arrivals waiting).0
    × IsPaired oidc (some "n") (listen oidc arrivals waiting).1
listen-IsPaired_example = listen-IsPaired oidc (some "n") arrivals waiting (refl, inl refl)

abbrev login_system : LoginSystem
login_system = record {
  oauth = system;
  oidc = oidc;
  port_in_use = λ port. ltb port 50000;
  configured_port = 0;
  arrivals = arrivals;
  generate_login_data = resolved tt;
  nonce = "n";
  set_initial_id_token = λ id_token. resolved tt;
  mfa_action_required = totp;
  mfa_argument = some "123456";
  totp_answer = none;
  setup_answer = none;
  set_up_now = false;
  mfa_summary = resolved tt;
  reset_secret = resolved tt;
  verify_totp = λ code. resolved tt;
}

-- The login ends with the subject: the redirect, the code and the second factor were accepted.
logs_in : (login_user_handler login_system stored).0.1 ≡ returned (some subject)
unfolding login_user_handler logout try_login is_authenticated oauth_login login port_to_use
    store_tokens settlement listen request_listener parse_idp_type redirect login_setup
    build_auth_scopes build_common_auth_url get_auth_url finish_login register_user
logs_in = refl

abbrev service_system : ServiceAccountSystem
service_system = record {
  oauth = system;
  generate_login_data = resolved tt;
  nonce = "n";
  provider_credentials = resolved (record {
    client_id = "1";
    client_email = "x@p.iam";
    private_key_id = "k1";
    private_key = "KEY";
    token_uri = "https://oauth2.googleapis.com/token";
    jwks_url = "";
  });
  bzero_credentials = resolved (record { org_id = "o"; mfa_secret = some "secret" });
  service_url = "https://cloud.bastionzero.com/";
  week_from_now = 605800;
  now = 1000;
  sign = λ claims key header. resolved header.jku;
  set_initial_id_token = λ id_token. resolved tt;
  totp = λ secret. "654321";
  login_service_account = λ passcode. resolved (
    record { email = "x@p.iam"; enabled = passcode == "654321" },
    record { session_id = "s3"; session_token = "t3" },
  );
}

login_service_account_handler-IsComplete_example :
    IsServiceComplete service_system (login_service_account_handler service_system stored)
login_service_account_handler-IsComplete_example =
    login_service_account_handler-IsComplete service_system stored
