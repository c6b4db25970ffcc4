-- ===== src/Login/Tokens/Exits.antt =====
-- What `getIdTokenAndExitOnError` returns, and what it leaves behind.
use zli.Prelude.{
  true, Option, none, some, List, ◌≡◌, ◌≢◌, refl, arith, String, Bool-cases, inl, inr,
}
use zli.Effect.{
  Failure, error, type_error, user_not_logged_in, refresh_token_error, oidc_error, returned, exited,
  threw, Run,
}
use zli.Effect.State.{clean_exit, emit, caught, continue, ◌>>◌}
use zli.Login.Config.{LoginConfig, TokenSet, LoginEvent, must_log_in, is_set, logout}
use zli.Login.Tokens.{
  OAuthSystem, get_token_set, with_session, has_session, log_out_on, get_id_token_and_exit_on_error,
}
use zli.Login.Tokens.Laws.{IsOrderly, get_token_set-IsOrderly}

-- An id token is returned only with a whole login, and without one the process is left with code 1.
abbrev pub EndsLoggedIn : Run LoginEvent (Option String) × LoginConfig → Type 0
EndsLoggedIn ((es, returned id_token), c) =
    (t : TokenSet) × (c.token_set ≡ some t)
    × (id_token ≡ t.id_token)
    × (is_set c.session_id ≡ true)
    × (is_set c.session_token ≡ true)
EndsLoggedIn ((es, exited code), c) = code ≡ 1
EndsLoggedIn ((es, threw failure), c) = ⊥

module _ (s : OAuthSystem) where
  log_out_on-EndsLoggedIn :
      (es : List LoginEvent) (f : Failure) (c : LoginConfig)
      → EndsLoggedIn
          (caught ((es, threw f), c) (λ e. log_out_on s e >> (emit must_log_in >> clean_exit 1)))
  unfolding logout
  log_out_on-EndsLoggedIn es (error text) c = refl
  log_out_on-EndsLoggedIn es type_error c = refl
  log_out_on-EndsLoggedIn es user_not_logged_in c = refl
  log_out_on-EndsLoggedIn es refresh_token_error c = refl
  log_out_on-EndsLoggedIn es (oidc_error text) c = refl

  Ends : Run LoginEvent (Option TokenSet) × LoginConfig → Type 0
  Ends r = EndsLoggedIn (
      caught (continue r (with_session s))
        (λ e. log_out_on s e >> (emit must_log_in >> clean_exit 1)))

  session-EndsLoggedIn :
      (es : List LoginEvent) (t : TokenSet) (c : LoginConfig)
      → c.token_set ≡ some t
      → Ends ((es, returned (some t)), c)
  unfolding Ends
  session-EndsLoggedIn es t c e = elim (Bool-cases (has_session s c)) [
    | inl f ↦ rw f (t, e, refl, ground arith, ground arith)
    | inr f ↦ rw f refl
  ]

  caught-EndsLoggedIn : (r : Run LoginEvent (Option TokenSet) × LoginConfig) → IsOrderly r → Ends r
  unfolding Ends
  caught-EndsLoggedIn ((es, returned none), c) (t, e, f, g) = absurd (cc)
  caught-EndsLoggedIn ((es, returned (some u)), c) (t, e, f, g) =
      unfold Ends in session-EndsLoggedIn es u c (cc)
  caught-EndsLoggedIn ((es, exited code), c) (e, f, g) = e
  caught-EndsLoggedIn ((es, threw x), c) h = log_out_on-EndsLoggedIn es x c

  -- `getIdTokenAndExitOnError` never throws. An id token that it returns is that of the stored tokens,
  -- and a session id and a session token are stored with them; otherwise it leaves the process with
  -- code 1.
  pub get_id_token-EndsLoggedIn :
      (c : LoginConfig) → EndsLoggedIn (get_id_token_and_exit_on_error s c)
  unfolding get_id_token_and_exit_on_error
  get_id_token-EndsLoggedIn c =
      unfold Ends in caught-EndsLoggedIn (get_token_set s c) (get_token_set-IsOrderly s c)

  -- After an error of `getTokenSet` other than that nobody is logged in, the stored tokens and the
  -- session id are gone.
  pub logged_out_on_failure :
      (c : LoginConfig) (es : List LoginEvent) (c' : LoginConfig) (f : Failure)
      → f ≢ user_not_logged_in
      → get_token_set s c ≡ ((es, threw f), c')
      → ((get_id_token_and_exit_on_error s c).1.token_set ≡ none)
        × ((get_id_token_and_exit_on_error s c).1.session_id ≡ none)
  unfolding get_id_token_and_exit_on_error logout
  logged_out_on_failure c es c' (error text) n e = rw e (refl, refl)
  logged_out_on_failure c es c' type_error n e = rw e (refl, refl)
  logged_out_on_failure c es c' user_not_logged_in n e = absurd (n refl)
  logged_out_on_failure c es c' refresh_token_error n e = rw e (refl, refl)
  logged_out_on_failure c es c' (oidc_error text) n e = rw e (refl, refl)
