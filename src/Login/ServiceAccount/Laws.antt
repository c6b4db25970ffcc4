-- ===== src/Login/ServiceAccount/Laws.antt =====
-- What a service account that is logged in has stored.
use zli.Prelude.{
  String, string_key, ◌==◌, Bool, true, false, Option, none, some, List, [], ◌∷◌, ◌≡◌, refl,
  Bool-cases, inl, inr,
}
use zli.Effect.{returned, exited, threw, Run, Settled, resolved, rejected, Settled-cases}
use zli.Effect.State.{continue, pure, after, await, modify, ◌>>=◌, ◌>>◌}
use zli.Login.Config.{
  LoginConfig, LoginEvent, mrtap_cleared, ssh_files_removed, TokenSet, SubjectSummary, logout,
}
use zli.Login.Tokens.{Session, is_authenticated}
use zli.Login.Handler.{store_tokens}
use zli.Login.ServiceAccount.{
  ProviderCredentials, BzeroCredentials, ServiceAccountSummary, ServiceAccountSystem, claims_of,
  header_of, create_gcp_service_account_token_set, try_login, after_login, secret_of, if_enabled,
  login_service_account_handler,
}

-- The stored tokens are those that were signed with the given credentials.
abbrev pub AreSigned : ServiceAccountSystem → BzeroCredentials → Option TokenSet → Type 0
AreSigned s bzero stored =
    (provider : ProviderCredentials) × (tokens : TokenSet) × (id_token : String)
    × (s.provider_credentials ≡ resolved provider)
    × (stored ≡ some tokens)
    × (tokens.id_token ≡ some id_token)
    × (s.sign (claims_of s provider bzero none) provider.private_key (header_of s provider)
        ≡ resolved id_token)

-- How the `try` block ends.
abbrev Tries :
    ServiceAccountSystem → Run LoginEvent (Option (Option BzeroCredentials)) × LoginConfig → Type 0
Tries s ((es, returned (some (some bzero))), c) =
    (s.bzero_credentials ≡ resolved bzero) × AreSigned s bzero c.token_set
Tries s ((es, returned (some none)), c) = ⊥
Tries s ((es, returned none), c) = Unit
Tries s ((es, exited code), c) = code ≡ 1
Tries s ((es, threw failure), c) = Unit

module _ (s : ServiceAccountSystem) where
  try_login-Tries :
      (c : LoginConfig) → Tries s (try_login s (record c { token_set = none; session_id = none }))
  unfolding try_login is_authenticated store_tokens create_gcp_service_account_token_set claims_of
      header_of
  try_login-Tries c = elim (Settled-cases s.generate_login_data) [
    | inr (x, e) ↦ rw e tt
    | inl (done, e) ↦ elim (Settled-cases s.provider_credentials) [
      | inr (x, f) ↦ rw (e, f) tt
      | inl (provider, f) ↦ elim (Settled-cases s.bzero_credentials) [
        | inr (x, g) ↦ rw (e, f, g) tt
        | inl (bzero, g) ↦
            elim (Settled-cases (
              s.sign (claims_of s provider bzero none) provider.private_key
                (header_of s provider))) [
                  | inr (x, h) ↦ rw (e, f, g, h) tt
                  | inl (id_token, h) ↦
                      elim (Settled-cases (
                        s.sign (claims_of s provider bzero (some "Access Token"))
                          provider.private_key (header_of s provider))) [
                            | inr (x, k) ↦ rw (e, f, g, h, k) tt
                            | inl (access_token, k) ↦
                                elim (Settled-cases (s.set_initial_id_token (some id_token))) [
                                  | inr (x, l) ↦ rw (e, f, g, h, k, l) tt
                                  | inl (set, l) ↦
                                      rw (e, f, g, h, k, l)
                                        (
                                          refl,
                                          (
                                            provider,
                                            record {
                                              token_type = "Bearer";
                                              access_token = access_token;
                                              id_token = some id_token;
                                              refresh_token = some "";
                                            },
                                            id_token,
                                            refl,
                                            refl,
                                            refl,
                                            h,
                                          ),
                                        )
                                ]
                          ]
                ]
      ]
    ]
  ]

  -- How the whole ends: a subject that is returned is stored.
  abbrev pub IsComplete : Run LoginEvent (Option SubjectSummary) × LoginConfig → Type 0
  IsComplete ((es, returned (some subject)), c) =
      (bzero : BzeroCredentials) × (secret : String) × (summary : ServiceAccountSummary)
      × (session : Session) × (bzero.mfa_secret ≡ some secret)
      × AreSigned s bzero c.token_set
      × (s.login_service_account (s.totp secret) ≡ resolved (summary, session))
      × (summary.enabled ≡ true)
      × (c.session_id ≡ some session.session_id)
      × (c.session_token ≡ some session.session_token)
      × (c.whoami ≡ some subject)
  IsComplete ((es, returned none), c) = Unit
  IsComplete ((es, exited code), c) = code ≡ 1
  IsComplete ((es, threw failure), c) = Unit

  after-IsComplete :
      (es : List LoginEvent) (r : Run LoginEvent (Option SubjectSummary) × LoginConfig)
      → IsComplete r
      → IsComplete (after es r)
  after-IsComplete es ((fs, returned none), c) h = tt
  after-IsComplete es ((fs, returned (some subject)), c) h = h
  after-IsComplete es ((fs, exited code), c) h = h
  after-IsComplete es ((fs, threw failure), c) h = tt

  me-IsComplete :
      (bzero : BzeroCredentials) (secret : String) (summary : ServiceAccountSummary)
      (session : Session) (c : LoginConfig) (me : Settled SubjectSummary)
      → bzero.mfa_secret ≡ some secret
      → AreSigned s bzero c.token_set
      → s.login_service_account (s.totp secret) ≡ resolved (summary, session)
      → summary.enabled ≡ true
      → c.session_id ≡ some session.session_id
      → c.session_token ≡ some session.session_token
      → IsComplete (
          (await me >>= λ subject.
          modify (λ d. record d { whoami = some subject }) >> pure (some subject))
            c)
  me-IsComplete bzero secret summary session c (rejected x) e signed f g h k = tt
  me-IsComplete bzero secret summary session c (resolved subject) e signed f g h k =
      (bzero, secret, summary, session, e, signed, f, g, h, k, refl)

  if_enabled-IsComplete :
      (bzero : BzeroCredentials) (secret : String) (summary : ServiceAccountSummary)
      (session : Session) (c : LoginConfig) (enabled : Bool)
      → bzero.mfa_secret ≡ some secret
      → AreSigned s bzero c.token_set
      → s.login_service_account (s.totp secret) ≡ resolved (summary, session)
      → summary.enabled ≡ enabled
      → c.session_id ≡ some session.session_id
      → c.session_token ≡ some session.session_token
      → IsComplete (if_enabled s enabled c)
  if_enabled-IsComplete bzero secret summary session c false e signed f g h k = refl
  if_enabled-IsComplete bzero secret summary session c true e signed f g h k =
      me-IsComplete bzero secret summary session c s.oauth.subject_me e signed f g h k

  with_secret-IsComplete :
      (bzero : BzeroCredentials) (secret : Option String) (c : LoginConfig)
      → bzero.mfa_secret ≡ secret
      → AreSigned s bzero c.token_set
      → IsComplete (
          (secret_of s secret >>= λ text.
          await (s.login_service_account (s.totp text)) >>= λ (summary, session).
          modify (λ d. record d {
            session_id = some session.session_id;
            session_token = some session.session_token;
          })
          >> if_enabled s summary.enabled)
            c)
  with_secret-IsComplete bzero none c e signed = refl
  with_secret-IsComplete bzero (some secret) c e signed = elim (Bool-cases (secret == "")) [
    | inl f ↦ rw f refl
    | inr f ↦ elim (Settled-cases (s.login_service_account (s.totp secret))) [
      | inr (x, g) ↦ rw (f, g) tt
      | inl ((summary, session), g) ↦
          rw (f, g)
            (if_enabled-IsComplete bzero secret summary session
              (record c {
                session_id = some session.session_id;
                session_token = some session.session_token;
              })
              summary.enabled e signed g refl refl refl)
    ]
  ]

  after_login-IsComplete :
      (r : Run LoginEvent (Option (Option BzeroCredentials)) × LoginConfig)
      → Tries s r
      → IsComplete (continue r (after_login s))
  after_login-IsComplete ((es, returned none), c) h = tt
  after_login-IsComplete ((es, returned (some none)), c) h = absurd h
  after_login-IsComplete ((es, returned (some (some bzero))), c) (read, signed) =
      after-IsComplete es (after_login s (some (some bzero)) c)
        (with_secret-IsComplete bzero bzero.mfa_secret c refl signed)
  after_login-IsComplete ((es, exited code), c) h = h
  after_login-IsComplete ((es, threw failure), c) h = tt

  -- If the login of a service account returns a subject, the stored id token was signed over the
  -- claims of the given credentials, the backend accepted the code for their secret, the account is
  -- enabled, and its session and the subject are stored. The process is left with code 1 only.
  pub login_service_account_handler-IsComplete :
      (c : LoginConfig) → IsComplete (login_service_account_handler s c)
  unfolding login_service_account_handler logout
  login_service_account_handler-IsComplete c =
      let c' = record c { token_set = none; session_id = none } in
      after-IsComplete (mrtap_cleared ∷ ssh_files_removed ∷ [])
        (continue (try_login s c') (after_login s))
        (after_login-IsComplete (try_login s c') (try_login-Tries c))
