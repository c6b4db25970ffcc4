-- ===== src/Login/Tokens/Laws.antt =====
-- What `getTokenSet` returns is what is stored, and the lock is released when it returns.
use zli.Prelude.{
  ℕ, Bool, true, false, Option, none, some, List, [], ◌∷◌, any, ◌≡◌, refl, Bool-cases, Option-cases,
  inl, inr,
}
use zli.Effect.{Failure, returned, exited, threw, Run, Settled, Settled-cases}
use zli.Effect.State.{throw, emit, ◌>>◌}
use zli.Login.Config.{
  LoginConfig, TokenSet, LoginEvent, lock_acquired, lock_released, me, subject_of, user,
  service_account, SubjectType, SubjectSummary,
}
use zli.Login.Tokens.{
  OAuthSystem, is_authenticated, is_id_token_expired, refresh, keep_refresh_token, register_user,
  locked, not_locked, with_lock, refresh_for, get_from, get_token_set,
}

abbrev pub is_acquired : LoginEvent → Bool
is_acquired lock_acquired = true
is_acquired _ = false

-- Whether the lock is held after the events, from whether it was before them. There is no answer when
-- a lock that is held is acquired, or one that is not held is released.
abbrev pub held_after : Bool → List LoginEvent → Option Bool
held_after held [] = some held
held_after true (lock_acquired ∷ es) = none
held_after false (lock_acquired ∷ es) = held_after true es
held_after true (lock_released ∷ es) = held_after false es
held_after false (lock_released ∷ es) = none
held_after held (_ ∷ es) = held_after held es

abbrev pub is_answer : Option Bool → Bool
is_answer none = false
is_answer (some held) = true

-- Tokens that are returned are the stored ones, and the lock is not held then. The process is left with
-- code 1 and without the lock having been acquired. In each case, and before an error, every release
-- follows an acquisition of its own.
abbrev pub IsOrderly : Run LoginEvent (Option TokenSet) × LoginConfig → Type 0
IsOrderly ((es, returned tokens), c) =
    (t : TokenSet) × (tokens ≡ some t) × (c.token_set ≡ some t) × (held_after false es ≡ some false)
IsOrderly ((es, exited code), c) =
    (code ≡ 1) × (any is_acquired es ≡ false) × (held_after false es ≡ some false)
IsOrderly ((es, threw failure), c) = is_answer (held_after false es) ≡ true

module _ (s : OAuthSystem) where
  data Answer (now : ℕ) (c : LoginConfig) : Type 0 where
    fresh :
        (t : TokenSet)
        → c.token_set ≡ some t
        → is_authenticated s now c ≡ (([], returned true), c)
        → Answer now c
    stale : is_authenticated s now c ≡ (([], returned false), c) → Answer now c
    failed : (f : Failure) → is_authenticated s now c ≡ (([], threw f), c) → Answer now c

  is_authenticated-Answer : (now : ℕ) (c : LoginConfig) → Answer now c
  unfolding is_authenticated
  is_authenticated-Answer now c = elim (Option-cases c.token_set) [
    | inl e ↦ stale (rw e refl)
    | inr (t, e) ↦ elim (Bool-cases (s.expired now t)) [
      | inl f ↦ stale (rw (e, f) refl)
      | inr f ↦ elim (Settled-cases (s.claims_exp t)) [
        | inr (x, g) ↦ failed x (rw (e, f, g) refl)
        | inl (exp, g) ↦ elim (Bool-cases (is_id_token_expired now exp)) [
          | inl h ↦ stale (rw (e, f, g, h) refl)
          | inr h ↦ fresh t e (rw (e, f, g, h) refl)
        ]
      ]
    ]
  ]

  data Refreshed (c : LoginConfig) : Type 0 where
    got_tokens : (t : TokenSet) → refresh s c ≡ (([], returned t), c) → Refreshed c
    no_tokens : (f : Failure) → refresh s c ≡ (([], threw f), c) → Refreshed c

  refresh-Refreshed : (c : LoginConfig) → Refreshed c
  unfolding refresh
  refresh-Refreshed c = elim (Settled-cases (s.setup_client c)) [
    | inr (x, e) ↦ no_tokens x (rw e refl)
    | inl (done, e) ↦ elim (Option-cases c.token_set) [
      | inl f ↦ no_tokens Failure.type_error (rw (e, f) refl)
      | inr (t, f) ↦ elim (Settled-cases (s.refresh_tokens t)) [
        | inr (x, g) ↦ no_tokens x (rw (e, f, g) refl)
        | inl (new, g) ↦ got_tokens (keep_refresh_token s t new) (rw (e, f, g) refl)
      ]
    ]
  ]

  held-IsOrderly :
      (c : LoginConfig) → IsOrderly ((emit lock_acquired >> locked s (emit lock_released)) c)
  unfolding register_user
  held-IsOrderly c = elim (is_authenticated-Answer s.later c) [
    | fresh t e f ↦ rw (f, e) (t, refl, refl, refl)
    | failed x f ↦ rw f refl
    | stale f ↦ elim (refresh-Refreshed c) [
      | no_tokens x g ↦ rw (f, g) refl
      | got_tokens t g ↦ elim (Settled-cases s.register) [
        | inr (x, h) ↦ rw (f, g, h) refl
        | inl (session, h) ↦ elim (Settled-cases s.subject_me) [
          | inr (x, k) ↦ rw (f, g, h, k) refl
          | inl (subject, k) ↦ rw (f, g, h, k) (t, refl, refl, refl)
        ]
      ]
    ]
  ]

  unheld-IsOrderly :
      (c : LoginConfig)
      → IsOrderly ((emit LoginEvent.runtime_error >> locked s (throw Failure.type_error)) c)
  unfolding register_user
  unheld-IsOrderly c = elim (is_authenticated-Answer s.later c) [
    | fresh t e f ↦ rw f refl
    | failed x f ↦ rw f refl
    | stale f ↦ elim (refresh-Refreshed c) [
      | no_tokens x g ↦ rw (f, g) refl
      | got_tokens t g ↦ elim (Settled-cases s.register) [
        | inr (x, h) ↦ rw (f, g, h) refl
        | inl (session, h) ↦ elim (Settled-cases s.subject_me) [
          | inr (x, k) ↦ rw (f, g, h, k) refl
          | inl (subject, k) ↦ rw (f, g, h, k) refl
        ]
      ]
    ]
  ]

  not_locked-IsOrderly :
      (leaves : Bool) (c : LoginConfig)
      → IsOrderly ((emit LoginEvent.runtime_error >> not_locked s leaves) c)
  not_locked-IsOrderly true c = (refl, refl, refl)
  not_locked-IsOrderly false c = unheld-IsOrderly c

  with_lock-IsOrderly :
      (lock : Settled (Unit {0})) (c : LoginConfig) → IsOrderly (with_lock s lock c)
  with_lock-IsOrderly (Settled.resolved done) c = held-IsOrderly (s.waited c)
  with_lock-IsOrderly (Settled.rejected x) c = not_locked-IsOrderly s.exits_first c

  refresh_for-IsOrderly : (type : SubjectType) (c : LoginConfig) → IsOrderly (refresh_for s type c)
  refresh_for-IsOrderly service_account c = refl
  refresh_for-IsOrderly user c = with_lock-IsOrderly s.lock c

  data Subject (c : LoginConfig) : Type 0 where
    known : (subject : SubjectSummary) → me c ≡ (([], returned subject), c) → Subject c
    unknown : (f : Failure) → me c ≡ (([], threw f), c) → Subject c

  me-Subject : (c : LoginConfig) → Subject c
  unfolding me
  me-Subject c = elim (Settled-cases (subject_of c.whoami)) [
    | inl (subject, e) ↦ known subject (rw e refl)
    | inr (f, e) ↦ unknown f (rw e refl)
  ]

  get_from-IsOrderly :
      (stored : Option TokenSet) (c : LoginConfig)
      → c.token_set ≡ stored
      → IsOrderly (get_from s stored c)
  get_from-IsOrderly none c e = refl
  get_from-IsOrderly (some t) c e = elim (is_authenticated-Answer s.now c) [
    | fresh u f g ↦ rw g (t, refl, e, refl)
    | failed x g ↦ rw g refl
    | stale g ↦ elim (me-Subject c) [
      | unknown x f ↦ rw (g, f) refl
      | known subject f ↦ rw (g, f) (refresh_for-IsOrderly subject.subject_type c)
    ]
  ]

  -- Tokens that `getTokenSet` returns are the ones that are stored then, and it does not hold the lock
  -- any more. It leaves the process with code 1 only, and without having taken the lock. However it
  -- ends, it releases the lock at most once for each time that it took it, and only while it holds it.
  pub get_token_set-IsOrderly : (c : LoginConfig) → IsOrderly (get_token_set s c)
  unfolding get_token_set
  get_token_set-IsOrderly c = get_from-IsOrderly c.token_set c refl
