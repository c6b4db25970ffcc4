-- ===== src/Policy/Service/Requests.antt =====
-- What holds of the events of a handler, from what holds of those of its steps.
use zli.Policy.Service.Laws.{get_policy_from_name_stays}
use zli.Effect.{threw}
use zli.Prelude.{refl, []}
use zli.Effect.{exited}
use zli.Prelude.{ℕ}
use zli.Prelude.{
  String, Bool, true, false, Option, none, some, ◌≡◌, sym, ap, ◌∙◌, subst, arith, if◌then◌else◌,
  All,
}
use zli.Effect.{Run, returned, emit, Settled, resolved, rejected, ◌>>=◌, ◌>>◌}
use zli.Effect.Laws.{>>=-All}
use zli.Policy.Types.{AnyPolicy, name_of}
use zli.Policy.Service.{
  Backend, Event, logged_error, logged_info, Message, unable_to_find_policy, await, await_or_exit,
  fail, finish, defined, found_or_exit, get_policy_from_name,
}
use zli.Policy.Service.Laws.{get_policy_from_name_silent, get_policy_from_name_sound}

pub found_or_exit_inv :
    (name : String) (r : Option AnyPolicy) (p : AnyPolicy)
    → (found_or_exit r name).1 ≡ returned p
    → r ≡ some p
found_or_exit_inv name r p h = ground arith

pub defined_inv : (r : Option AnyPolicy) (p : AnyPolicy) → (defined r).1 ≡ returned p → r ≡ some p
defined_inv r p h = ground arith

module _ (P : Event → Type 0) where
  -- A handler that looks a policy up and continues with it.
  pub lookup-All :
      (b : Backend) (name : String) (check : Option AnyPolicy → Run Event AnyPolicy)
      (f : AnyPolicy → Run Event (Unit {0}))
      → ((r : Option AnyPolicy) → All P (check r).0)
      → ((r : Option AnyPolicy) (p : AnyPolicy) → (check r).1 ≡ returned p → r ≡ some p)
      → ((p : AnyPolicy)
          → name_of p ≡ name
          → (get_policy_from_name b name).1 ≡ returned (some p)
          → All P (f p).0)
      → All P (get_policy_from_name b name >>= λ found. check found >>= f).0
  lookup-All b name check f h k l =
      >>=-All P (get_policy_from_name b name) (λ found. check found >>= f)
        (subst (λ es. All P es) (sym (get_policy_from_name_silent b name)) tt)
        (λ r e. >>=-All P (check r) f (h r) (λ p g.
          let found = e ∙ ap returned (k r p g) in
          l p (get_policy_from_name_sound b name p found) found))

  pub request-All : (e : Event) (r : Settled (Unit {0})) → P e → All P (emit e >> await r).0
  request-All e (resolved u) h = (h, tt)
  request-All e (rejected failure) h = (h, tt)

  pub await_or_exit-All :
      {A : Type 0} (r : Settled A) (m : Message) → P (logged_error m) → All P (await_or_exit r m).0
  await_or_exit-All (resolved a) m h = tt
  await_or_exit-All (rejected failure) m h = (h, tt)

  pub found_or_exit-All :
      (name : String)
      → P (logged_error (unable_to_find_policy name))
      → (r : Option AnyPolicy) → All P (found_or_exit r name).0
  found_or_exit-All name h none = (h, tt)
  found_or_exit-All name h (some p) = tt

  pub defined-All : (r : Option AnyPolicy) → All P (defined r).0
  defined-All none = tt
  defined-All (some p) = tt

  -- A guard that fails, or a request and a report.
  pub guarded-All :
      (c : Bool) (m done : Message) (r : Run Event (Unit {0}))
      → P (logged_error m)
      → P (logged_info done)
      → All P r.0
      → All P (if c then fail m else (r >> finish done)).0
  guarded-All true m done r h k l = (h, tt)
  guarded-All false m done r h k l = >>=-All P r (λ _. finish done) l (λ _ _. (k, tt))

-- How a handler that looks a policy up comes to leave the process.
found_first :
    (m : Run Event (Option AnyPolicy)) (code : ℕ) (k : Option AnyPolicy → Run Event (Unit {0}))
    → m.0 ≡ []
    → ((c : ℕ) → ¬ (m.1 ≡ exited c))
    → (m >>= k).1 ≡ exited code
    → (r : Option AnyPolicy) × (m.1 ≡ returned r) × (m >>= k ≡ k r)
found_first (es, returned r) code k e n h = (r, refl, ground arith)
found_first (es, exited c) code k e n h = absurd (n c refl)
found_first (es, threw f) code k e n h = absurd (cc)

pub lookup_of_exit :
    (b : Backend) (name : String) (code : ℕ) (k : Option AnyPolicy → Run Event (Unit {0}))
    → (get_policy_from_name b name >>= k).1 ≡ exited code
    → (r : Option AnyPolicy) × ((get_policy_from_name b name).1 ≡ returned r)
      × (get_policy_from_name b name >>= k ≡ k r)
lookup_of_exit b name code k h =
    found_first (get_policy_from_name b name) code k (get_policy_from_name_silent b name)
      (get_policy_from_name_stays b name) h

pub awaited_of_success :
    {A : Type 0} (r : Settled A) (m : Message) (k : A → Run Event (Unit {0}))
    → (await_or_exit r m >>= k).1 ≡ exited 0
    → (a : A) × (r ≡ resolved a) × (await_or_exit r m >>= k ≡ k a)
awaited_of_success (resolved a) m k h = (a, refl, refl)
awaited_of_success (rejected f) m k h = absurd (cc)
