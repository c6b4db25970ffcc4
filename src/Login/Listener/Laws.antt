-- ===== src/Login/Listener/Laws.antt =====
-- Every exchange of a code is made with values that one redirect drew.
use zli.Prelude.{
  ℕ, String, string_key, ◌==◌, Bool, true, false, Option, none, some, List, [], ◌∷◌, map, All,
  All-append, ◌≡◌, refl, ◌⊎◌, inl, inr, Bool-cases,
}
use zli.Effect.{Failure, returned, exited, threw, Run, Settled, resolved, rejected}
use zli.Effect.State.{await, gets, emit, modify, or_else, caught, continue, ◌>>=◌, ◌>>◌}
use zli.Login.Config.{LoginEvent, Doing, TokenSet, IdentityProvider, login_setup}
use zli.Login.Listener.{
  CallbackPath, webapp_callback, login_callback, logout_callback, other_path, CallbackRequest,
  Checks, Listener, ListenerEvent, config_event, exchange_tried, promise_rejected, Listening,
  OidcSystem, parse_idp_type, on_config, reject_if_error, reject_unless, given, prompt_of,
  get_auth_url, draw, redirect, on_webapp_callback, client_of, checks_of, call_client, pass_on,
  finish_login, exchange_code, on_login_callback, on_path, request_listener, Arrival, request,
  timeout, on_arrival, listen, no_client, no_verifier, no_nonce, call_exchange,
}

module _ (s : OidcSystem) (nonce : Option String) where
  -- Values that one redirect drew, with the nonce of the login.
  abbrev pub AreDrawn : Checks → Type 0
  AreDrawn checks =
      (k : ℕ) × (checks.code_verifier ≡ some (s.drawn_verifier k))
      × (checks.state ≡ some (s.drawn_state k))
      × (checks.nonce ≡ nonce)

  abbrev pub IsFair : ListenerEvent → Type 0
  IsFair (exchange_tried checks) = AreDrawn checks
  IsFair _ = Unit

  -- The fields of the service between two steps.
  abbrev pub IsPaired : Listener → Type 0
  IsPaired l = (l.nonce ≡ nonce) × ((l.has_client ≡ false) ⊎ AreDrawn (checks_of s l))

  abbrev KeepsAt : {A : Type 0} → Run ListenerEvent A × Listener → Type 0
  KeepsAt r = All IsFair r.0.0 × IsPaired r.1

  record Keeps {A : Type 0} (m : Listening A) : Type 0 where
    at : (l : Listener) → IsPaired l → KeepsAt (m l)

  continue-KeepsAt :
      {A B : Type 0} (r : Run ListenerEvent A × Listener) (f : A → Listening B)
      → KeepsAt r
      → ((a : A) → Keeps (f a))
      → KeepsAt (continue r f)
  continue-KeepsAt ((es, returned a), l) f (h, p) k =
      let (g, q) = (k a).at l p in (All-append IsFair es (f a l).0.0 h g, q)
  continue-KeepsAt ((es, exited code), l) f h k = h
  continue-KeepsAt ((es, threw failure), l) f h k = h

  >>=-Keeps :
      {A B : Type 0} (m : Listening A) (f : A → Listening B)
      → Keeps m
      → ((a : A) → Keeps (f a))
      → Keeps (m >>= f)
  >>=-Keeps m f h k = record { at = λ l p. continue-KeepsAt (m l) f (h.at l p) k }

  caught-KeepsAt :
      {A : Type 0} (r : Run ListenerEvent A × Listener) (f : Failure → Listening A)
      → KeepsAt r
      → ((x : Failure) → Keeps (f x))
      → KeepsAt (caught r f)
  caught-KeepsAt ((es, returned a), l) f h k = h
  caught-KeepsAt ((es, exited code), l) f h k = h
  caught-KeepsAt ((es, threw x), l) f (h, p) k =
      let (g, q) = (k x).at l p in (All-append IsFair es (f x l).0.0 h g, q)

  or_else-Keeps :
      {A : Type 0} (m : Listening A) (f : Failure → Listening A)
      → Keeps m
      → ((x : Failure) → Keeps (f x))
      → Keeps (or_else m f)
  or_else-Keeps m f h k = record { at = λ l p. caught-KeepsAt (m l) f (h.at l p) k }

  await-Keeps : {A : Type 0} (r : Settled A) → Keeps (await r)
  await-Keeps (resolved a) = record { at = λ l p. (tt, p) }
  await-Keeps (rejected x) = record { at = λ l p. (tt, p) }

  config_events-All : (es : List LoginEvent) → All IsFair (map config_event es)
  config_events-All [] = tt
  config_events-All (e ∷ es) = (tt, config_events-All es)

  on_config-Keeps : {A : Type 0} (m : Doing A) → Keeps (on_config m)
  on_config-Keeps m = record { at = λ l p. (config_events-All (m l.config).0.0, p) }

  reject_unless-Keeps : {A : Type 0} (o : Option A) (text : String) → Keeps (reject_unless o text)
  reject_unless-Keeps none text = record { at = λ l p. ((tt, tt), p) }
  reject_unless-Keeps (some a) text = record { at = λ l p. (tt, p) }

  reject_if_error-Keeps : (o : Option String) → Keeps (reject_if_error o)
  reject_if_error-Keeps none = record { at = λ l p. (tt, p) }
  reject_if_error-Keeps (some text) = elim (Bool-cases (text == "")) [
    | inl e ↦ rw e (record { at = λ l p. (tt, p) })
    | inr e ↦ rw e (record { at = λ l p. ((tt, tt), p) })
  ]

  emit-Keeps : (e : ListenerEvent) → IsFair e → Keeps (emit e)
  emit-Keeps e h = record { at = λ l p. ((h, tt), p) }

  gets-Keeps :
      {A B : Type 0} (f : Listener → A) (g : A → Listening B)
      → ((a : A) → Keeps (g a))
      → Keeps (gets f >>= g)
  gets-Keeps f g k = >>=-Keeps (gets f) g (record { at = λ l p. (tt, p) }) k

  get_auth_url-Keeps : Keeps get_auth_url
  unfolding get_auth_url
  get_auth_url-Keeps =
      gets-Keeps (λ l. given l.nonce "Unable to get authUrl with undefined nonce") _
        λ n. >>=-Keeps (await n) _ (await-Keeps n) λ _.
          gets-Keeps (λ l. given l.config.idp "Unable to get authUrl from undefined idp") _
            λ idp.
              >>=-Keeps (await idp) _ (await-Keeps idp) λ provider. await-Keeps (prompt_of provider)

  draw-Keeps : Keeps (modify (draw s))
  draw-Keeps = record { at = λ l p. (tt, (p.0, inr (l.redirects, refl, refl, p.0))) }

  redirect-Keeps :
      (provider : Option IdentityProvider) (email : Option String)
      → Keeps (redirect s provider email)
  unfolding redirect
  redirect-Keeps provider email =
      >>=-Keeps (on_config (login_setup s.backend provider email)) _
        (on_config-Keeps (login_setup s.backend provider email))
        λ _.
          gets-Keeps (λ l. s.setup_client l.config) _
            λ client. >>=-Keeps (await client) _ (await-Keeps client) λ _.
              >>=-Keeps (modify (draw s)) _ draw-Keeps λ _.
                >>=-Keeps get_auth_url _ get_auth_url-Keeps
                  λ _. emit-Keeps ListenerEvent.redirected tt

  on_webapp_callback-Keeps : (r : CallbackRequest) → Keeps (on_webapp_callback s r)
  on_webapp_callback-Keeps r =
      >>=-Keeps _ _
        (reject_unless-Keeps (parse_idp_type r.query_idp)
          "The selected identity provider is not currently supported")
        λ _.
          or_else-Keeps (redirect s (parse_idp_type r.query_idp) r.query_email) _
            (redirect-Keeps (parse_idp_type r.query_idp) r.query_email)
            λ x. emit-Keeps (promise_rejected x) tt

  pass_on-Keeps : (tokens : TokenSet) → Keeps (pass_on s tokens)
  pass_on-Keeps tokens =
      or_else-Keeps (on_config (s.callback tokens) >> emit ListenerEvent.tokens_passed) _
        (>>=-Keeps (on_config (s.callback tokens)) _ (on_config-Keeps (s.callback tokens))
          λ _. emit-Keeps ListenerEvent.tokens_passed tt)
        λ x. emit-Keeps (promise_rejected x) tt

  finish_login-Keeps : Keeps (finish_login s)
  unfolding finish_login
  finish_login-Keeps = record { at = λ l p. ((tt, (tt, (tt, tt))), p) }

  exchange_code-Keeps : (checks : Checks) → AreDrawn checks → Keeps (exchange_code s checks)
  exchange_code-Keeps checks h =
      >>=-Keeps (emit (exchange_tried checks)) _ (emit-Keeps (exchange_tried checks) h) λ _.
        >>=-Keeps (await (s.exchange checks)) _ (await-Keeps (s.exchange checks))
          λ tokens. >>=-Keeps (pass_on s tokens) _ (pass_on-Keeps tokens) λ _. finish_login-Keeps

  -- The code after the tests, from which on the client is there.
  called-KeepsAt :
      (l : Listener) (client : Bool)
      → l.has_client ≡ client
      → IsPaired l
      → KeepsAt ((await (call_client s client) >> (gets (checks_of s) >>= exchange_code s)) l)
  called-KeepsAt l false e p = (tt, p)
  called-KeepsAt l true e (f, inl g) = absurd (cc)
  called-KeepsAt l true e (f, inr h) = (exchange_code-Keeps (checks_of s l) h).at l (f, inr h)

  on_login_callback-Keeps : Keeps (on_login_callback s)
  on_login_callback-Keeps =
      gets-Keeps (λ l. client_of s l.has_client) _
        λ client.
          >>=-Keeps (reject_unless client no_client) _ (reject_unless-Keeps client no_client) λ _.
            gets-Keeps (λ l. l.code_verifier) _
              λ verifier.
                >>=-Keeps (reject_unless verifier no_verifier) _
                  (reject_unless-Keeps verifier no_verifier)
                  λ _.
                    gets-Keeps (λ l. l.nonce) _
                      λ n.
                        >>=-Keeps (reject_unless n no_nonce) (λ _. call_exchange s)
                          (reject_unless-Keeps n no_nonce)
                          λ _. record { at = λ l p. called-KeepsAt l l.has_client refl p }

  on_path-Keeps : (r : CallbackRequest) (path : CallbackPath) → Keeps (on_path s r path)
  on_path-Keeps r webapp_callback = on_webapp_callback-Keeps r
  on_path-Keeps r login_callback = on_login_callback-Keeps
  on_path-Keeps r logout_callback = record { at = λ l p. ((tt, (tt, (tt, tt))), p) }
  on_path-Keeps r other_path = record { at = λ l p. ((tt, tt), p) }

  on_arrival-Keeps : (a : Arrival) → Keeps (on_arrival s a)
  unfolding request_listener
  on_arrival-Keeps (request r) =
      >>=-Keeps (reject_if_error r.query_error) _ (reject_if_error-Keeps r.query_error)
        λ _. on_path-Keeps r r.path
  on_arrival-Keeps timeout = record { at = λ l p. ((tt, tt), p) }

  -- Whatever requests arrive, each exchange of a code for tokens is made with a code verifier and a
  -- state that were drawn for one redirect to the provider, and with the nonce of the login.
  pub listen-IsPaired :
      (arrivals : List Arrival) (l : Listener)
      → IsPaired l
      → All IsFair (listen s arrivals l).0 × IsPaired (listen s arrivals l).1
  unfolding listen
  listen-IsPaired [] l p = (tt, p)
  listen-IsPaired (a ∷ arrivals) l p =
      let (h, q) = (on_arrival-Keeps a).at l p in
      let (k, r) = listen-IsPaired arrivals (on_arrival s a l).1 q in
      (All-append IsFair (on_arrival s a l).0.0 (listen s arrivals (on_arrival s a l).1).0 h k, r)
