-- ===== src/Policy/Create/Laws.antt =====
-- How the handlers end, from what holds of their steps.
use zli.Prelude.{
  ℕ, String, Bool, true, false, ◌||◌, List, [], ◌∷◌, ◌++◌, ◌≡◌, refl, ◌∙◌, ◌⊎◌, inl, inr, arith,
  Option-cases, Bool-cases, ltb, length, string_key,
}
use zli.Dict.Defs.{Dict, get}
use zli.Effect.{
  Failure, Outcome, returned, exited, threw, Run, pure, emit, ◌>>=◌, ◌>>◌, Settled, resolved,
  rejected,
}
use zli.Policy.Identifiers.{
  IdentifierError, IdentifierMap, parse_names, check_all_identifiers_exist,
  check_all_identifiers_are_single,
}
use zli.Policy.Create.{
  CreateRequest, CreateEvent, logged_error, warned_deprecated, requested, warned_created, Created,
  Settings, Creating, logged, awaited,
}

-- The requests and the reports of success.
abbrev pub effects : List CreateEvent → List CreateEvent
effects [] = []
effects (logged_error e ∷ es) = effects es
effects (warned_deprecated ∷ es) = effects es
effects (requested r ∷ es) = requested r ∷ effects es
effects (warned_created name id ∷ es) = warned_created name id ∷ effects es

abbrev pub has_error : List CreateEvent → Bool
has_error [] = false
has_error (logged_error e ∷ es) = true
has_error (warned_deprecated ∷ es) = has_error es
has_error (requested r ∷ es) = has_error es
has_error (warned_created name id ∷ es) = has_error es

pub effects-append : (es fs : List CreateEvent) → effects es ≡ [] → effects (es ++ fs) ≡ effects fs
effects-append [] fs h = refl
effects-append (logged_error e ∷ es) fs h = effects-append es fs h
effects-append (warned_deprecated ∷ es) fs h = effects-append es fs h
effects-append (requested r ∷ es) fs h = absurd (ground arith)
effects-append (warned_created n i ∷ es) fs h = absurd (ground arith)

pub has_error-append :
    (es fs : List CreateEvent) → has_error (es ++ fs) ≡ (has_error es || has_error fs)
has_error-append [] fs = refl
has_error-append (logged_error e ∷ es) fs = refl
has_error-append (warned_deprecated ∷ es) fs = has_error-append es fs
has_error-append (requested r ∷ es) fs = has_error-append es fs
has_error-append (warned_created n i ∷ es) fs = has_error-append es fs

-- How a run ends, after an error was logged or none: with 0 when the backend has accepted the one
-- request and the new policy is reported, with 1 after an error, or by a failure, before a request or
-- when it is rejected.
abbrev pub Ends : Settings → Bool → List CreateEvent → Outcome (Unit {0}) → Type 0
Ends s e es (returned u) = ⊥
Ends s e es (exited code) =
    ((r : CreateRequest) × (c : Created) × (code ≡ 0)
      × (effects es ≡ requested r ∷ warned_created c.name c.id ∷ [])
      × (s.create r ≡ resolved c))
    ⊎ ((code ≡ 1) × ((e || has_error es) ≡ true))
Ends s e es (threw failure) =
    (effects es ≡ [])
    ⊎ ((r : CreateRequest) × (effects es ≡ requested r ∷ []) × (s.create r ≡ rejected failure))

pub record EndsWell (s : Settings) (e : Bool) (m : Creating (Unit {0})) : Type 0 where
  pub ends : Ends s e m.0 m.1

-- A step that sends nothing, and that leaves the process only with 1 and after an error.
pub record IsQuiet {A : Type 0} (e : Bool) (m : Creating A) : Type 0 where
  pub sends_nothing : effects m.0 ≡ []
  pub says_why : (code : ℕ) → m.1 ≡ exited code → (code ≡ 1) × ((e || has_error m.0) ≡ true)

pub Ends-append :
    (s : Settings) (e : Bool) (es fs : List CreateEvent) (r : Outcome (Unit {0}))
    → effects es ≡ []
    → Ends s (e || has_error es) fs r
    → Ends s e (es ++ fs) r
Ends-append s e es fs (returned u) q h = h
Ends-append s e es fs (exited code) q (inl (r, c, i, j, k)) =
    inl (r, c, i, effects-append es fs q ∙ j, k)
Ends-append s e es fs (exited code) q (inr (i, j)) = inr (i, ground (arith, has_error-append es fs))
Ends-append s e es fs (threw failure) q (inl j) = inl (effects-append es fs q ∙ j)
Ends-append s e es fs (threw failure) q (inr (r, j, k)) = inr (r, effects-append es fs q ∙ j, k)

module _ (s : Settings) {A : Type 0} (e : Bool) (f : A → Creating (Unit {0})) where
  pub >>=-EndsWell :
      (m : Creating A)
      → IsQuiet e m
      → ((a : A) → m.1 ≡ returned a → EndsWell s (e || has_error m.0) (f a))
      → EndsWell s e (m >>= f)
  >>=-EndsWell (es, returned a) q h = record {
    ends = Ends-append s e es (f a).0 (f a).1 q.sends_nothing (h a refl).ends;
  }
  >>=-EndsWell (es, exited code) q h = record { ends = inr (q.says_why code refl) }
  >>=-EndsWell (es, threw failure) q h = record { ends = inl q.sends_nothing }

module _ {A B : Type 0} (e : Bool) (f : A → Creating B) where
  pub after-IsQuiet :
      (es : List CreateEvent) (m : Creating B)
      → effects es ≡ []
      → IsQuiet (e || has_error es) m
      → IsQuiet e (es ++ m.0, m.1)
  after-IsQuiet es (fs, r) q h = record {
    sends_nothing = effects-append es fs q ∙ h.sends_nothing;
    says_why =
        λ code i. let (a, b) = h.says_why code i in (a, ground (arith, has_error-append es fs));
  }

  pub >>=-IsQuiet :
      (m : Creating A)
      → IsQuiet e m
      → ((a : A) → m.1 ≡ returned a → IsQuiet (e || has_error m.0) (f a))
      → IsQuiet e (m >>= f)
  >>=-IsQuiet (es, returned a) q h = after-IsQuiet es (f a) q.sends_nothing (h a refl)
  >>=-IsQuiet (es, exited code) q h = record {
    sends_nothing = q.sends_nothing;
    says_why = λ c i. q.says_why c (ground arith);
  }
  >>=-IsQuiet (es, threw failure) q h = record {
    sends_nothing = q.sends_nothing;
    says_why = λ c i. absurd (ground arith);
  }

-- A search or a check leaves the process only with 1 and after an error.
abbrev pub IsPlain : {A : Type 0} → Run IdentifierError A → Type 0
IsPlain m = (code : ℕ) → m.1 ≡ exited code → (code ≡ 1) × (has_error (logged m.0) ≡ true)

module _ {T : Type 0} (key : T → String) (kind : String) (m : Dict String T) where
  pub parse_names-IsPlain :
      (rs : List T) (names : List String) → IsPlain (parse_names key kind m rs names)
  unfolding parse_names
  parse_names-IsPlain rs [] code h = absurd (ground arith)
  parse_names-IsPlain rs (name ∷ names) code h = elim (Option-cases (get name m)) [
    | inl absent ↦ (ground arith, ground arith)
    | inr (r, i) ↦ ground (arith, parse_names-IsPlain (rs ++ r ∷ []) names code)
  ]

pub mapped-IsPlain :
    {A B : Type 0} (g : A → B) (m : Run IdentifierError A)
    → IsPlain m
    → IsPlain (zli.Effect.◌>>=◌ m (λ a. zli.Effect.pure (g a)))
mapped-IsPlain g (es, returned a) h code i = absurd (ground arith)
mapped-IsPlain g (es, exited c) h code i = h code (ground arith)
mapped-IsPlain g (es, threw failure) h code i = absurd (ground arith)

module _ (kind : String) (m : IdentifierMap) where
  pub exist-IsPlain : (ids : List String) → IsPlain (check_all_identifiers_exist kind m ids)
  unfolding check_all_identifiers_exist
  exist-IsPlain [] code h = absurd (ground arith)
  exist-IsPlain (id ∷ ids) code h = elim (Option-cases (get id m)) [
    | inl absent ↦ (ground arith, ground arith)
    | inr (ts, i) ↦ ground (arith, exist-IsPlain ids code)
  ]

  pub are_single-IsPlain :
      (ids : List String) → IsPlain (check_all_identifiers_are_single kind m ids)
  unfolding check_all_identifiers_are_single
  are_single-IsPlain [] code h = absurd (ground arith)
  are_single-IsPlain (id ∷ ids) code h = elim (Option-cases (get id m)) [
    | inl absent ↦ ground (arith, are_single-IsPlain ids code)
    | inr (ts, i) ↦ elim (Bool-cases (ltb 1 (length ts))) [
      | inl several ↦ (ground arith, ground arith)
      | inr single ↦ ground (arith, are_single-IsPlain ids code)
    ]
  ]

pub effects-logged : (es : List IdentifierError) → effects (logged es) ≡ []
effects-logged [] = refl
effects-logged (e ∷ es) = effects-logged es

pub awaited-IsQuiet :
    {A : Type 0} (e : Bool) (m : Run IdentifierError A) → IsPlain m → IsQuiet e (awaited m)
awaited-IsQuiet e m h = record {
  sends_nothing = effects-logged m.0;
  says_why = λ code i. let (a, b) = h code i in (a, ground arith);
}
