-- ===== src/Login/Tokens.antt =====
-- `isAuthenticated`, `refresh`, `getTokenSet` and `getIdTokenAndExitOnError` of
-- services/oauth/oauth.service.ts, with `Register` of http-services/user/user.http-services.ts as far
-- as it writes the store.
pub mod Laws
pub mod Exits
use zli.Prelude.{
  ℕ, ◌+◌, String, string_key, option_key, ◌==◌, leb, Bool, true, false, not, ◌&&◌, Option, none,
  some, List, [], ◌∷◌, if◌then◌else◌,
}
use zli.Effect.{
  Failure, error, type_error, user_not_logged_in, refresh_token_error, oidc_error, Settled,
}
use zli.Effect.State.{
  Stateful, pure, throw, clean_exit, await, gets, emit, modify, or_else, ◌>>=◌, ◌>>◌,
}
use zli.Login.Config.{
  LoginConfig, TokenSet, SubjectType, user, service_account, SubjectSummary, Doing, LoginEvent,
  lock_acquired, lock_released, registered, stale_log_in_detected, must_log_in, runtime_error,
  is_set, logout, me,
}

-- The cookies that the backend answers a registration with.
pub record Session : Type 0 where
  pub session_id : String
  pub session_token : String

-- What the service asks of openid-client, the lock, the clock and the backend. `now` is the time in
-- seconds at the start, `later` that at which the lock is held; `waited` is what other processes have
-- written to the store while this one waited. `exits_first` says, when the lock is not acquired,
-- whether the process is left before the code that follows the call of `cleanExit` has run: that call
-- is not awaited.
pub record OAuthSystem : Type 0 where
  pub expired : (now : ℕ) → TokenSet → Bool
  pub claims_exp : TokenSet → Settled (Option ℕ)
  pub now : ℕ
  pub later : ℕ
  pub lock : Settled (Unit {0})
  pub waited : LoginConfig → LoginConfig
  pub exits_first : Bool
  pub setup_client : LoginConfig → Settled (Unit {0})
  pub refresh_tokens : TokenSet → Settled TokenSet
  pub register : Settled Session
  pub subject_me : Settled SubjectSummary

-- `now + 60 * 5 >= exp`; a comparison with `undefined` is false.
unfoldable pub is_id_token_expired : ℕ → Option ℕ → Bool
is_id_token_expired now none = false
is_id_token_expired now (some exp) = leb exp (now + 300)

module _ (s : OAuthSystem) where
  abbrev pub check_id_token : ℕ → TokenSet → Bool → Doing Bool
  check_id_token now tokens true = pure false
  check_id_token now tokens false = do
    exp ← await (s.claims_exp tokens)
    pure (not (is_id_token_expired now exp))

  abbrev pub check_tokens : ℕ → Option TokenSet → Doing Bool
  check_tokens now none = pure false
  check_tokens now (some tokens) = check_id_token now tokens (s.expired now tokens)

  unfoldable pub is_authenticated : ℕ → Doing Bool
  is_authenticated now = do stored ← gets (λ c. c.token_set); check_tokens now stored

  -- The refresh token of before, if there is no new one.
  unfoldable pub keep_refresh_token : TokenSet → TokenSet → TokenSet
  keep_refresh_token old new =
      if is_set new.refresh_token then new else record new { refresh_token = old.refresh_token }

  abbrev pub refresh_stored : Option TokenSet → Doing TokenSet
  refresh_stored none = throw type_error
  refresh_stored (some tokens) = do
    refreshed ← await (s.refresh_tokens tokens)
    pure (keep_refresh_token tokens refreshed)

  unfoldable pub refresh : Doing TokenSet
  refresh = do
    client ← gets s.setup_client
    await client
    stored ← gets (λ c. c.token_set)
    refresh_stored stored

  -- The session of the cookies is stored where it differs from the stored one.
  unfoldable pub register_user : Doing (Unit {0})
  register_user = do
    session ← await s.register
    emit registered
    modify (λ c. record c {
      session_id = some session.session_id;
      session_token = some session.session_token;
    })

  abbrev pub as_refresh_error : Failure → Failure
  as_refresh_error (oidc_error message) = refresh_token_error
  as_refresh_error failure = failure

  -- What is done under the lock; `release` is undefined if it was not acquired.
  abbrev pub when_locked : Doing (Unit {0}) → Bool → Doing (Option TokenSet)
  when_locked release true = do stored ← gets (λ c. c.token_set); release; pure stored
  when_locked release false = do
    tokens ← or_else refresh (λ e. release >> throw (as_refresh_error e))
    modify (λ c. record c { token_set = some tokens })
    register_user
    subject ← await s.subject_me
    modify (λ c. record c { whoami = some subject })
    release
    pure (some tokens)

  abbrev pub locked : Doing (Unit {0}) → Doing (Option TokenSet)
  locked release = do fresh ← is_authenticated s.later; when_locked release fresh

  abbrev pub not_locked : Bool → Doing (Option TokenSet)
  not_locked true = clean_exit 1
  not_locked false = locked (throw type_error)

  abbrev pub with_lock : Settled (Unit {0}) → Doing (Option TokenSet)
  with_lock (Settled.resolved done) = do
    modify s.waited
    emit lock_acquired
    locked (emit lock_released)
  with_lock (Settled.rejected failure) = do emit runtime_error; not_locked s.exits_first

  abbrev pub refresh_for : SubjectType → Doing (Option TokenSet)
  refresh_for service_account =
      throw (error "Service account session has expired, please log in again.")
  refresh_for user = with_lock s.lock

  abbrev pub unless_fresh : TokenSet → Bool → Doing (Option TokenSet)
  unless_fresh tokens true = pure (some tokens)
  unless_fresh tokens false = do subject ← me; refresh_for subject.subject_type

  abbrev pub get_from : Option TokenSet → Doing (Option TokenSet)
  get_from none = throw user_not_logged_in
  get_from (some tokens) = do fresh ← is_authenticated s.now; unless_fresh tokens fresh

  unfoldable pub get_token_set : Doing (Option TokenSet)
  get_token_set = do stored ← gets (λ c. c.token_set); get_from stored

  abbrev pub has_session : LoginConfig → Bool
  has_session c = is_set c.session_id && is_set c.session_token

  abbrev pub unless_session : Bool → Option String → Doing (Option String)
  unless_session true id_token = pure id_token
  unless_session false id_token = throw user_not_logged_in

  abbrev pub with_session : Option TokenSet → Doing (Option String)
  with_session none = throw type_error
  with_session (some tokens) = do session ← gets has_session; unless_session session tokens.id_token

  abbrev pub log_out_on : Failure → Doing (Unit {0})
  log_out_on refresh_token_error = emit stale_log_in_detected >> logout
  log_out_on user_not_logged_in = pure tt
  log_out_on failure = logout

  unfoldable pub get_id_token_and_exit_on_error : Doing (Option String)
  get_id_token_and_exit_on_error =
      or_else (get_token_set >>= with_session)
        (λ e. do log_out_on e; emit must_log_in; clean_exit 1)
