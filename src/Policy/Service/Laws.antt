-- ===== src/Policy/Service/Laws.antt =====
-- `getPolicyFromName` causes no event, and finds a policy by its name.
use zli.Prelude.{ap₂}
use zli.Policy.Service.{Option}
use zli.Prelude.{ℕ}
use zli.Prelude.{String, string_key, ◌==◌, some, List, [], ◌≡◌, arith, find, find_sound, eq_iff}
use zli.Effect.{pure, returned, exited, threw, Run, ◌>>=◌}
use zli.Policy.Types.{AnyPolicy, name_of}
use zli.Policy.Service.{Backend, Event, all_policies, get_policy_from_name}

found_by_name :
    (name : String) (p : AnyPolicy) (m : Run Event (List AnyPolicy))
    → (m >>= λ policies. pure (find (λ q. name_of q == name) policies)).1 ≡ returned (some p)
    → name_of p ≡ name
found_by_name name p (es, returned policies) h =
    (eq_iff (name_of p) name).0 (find_sound (λ q. name_of q == name) policies (cc))
found_by_name name p (es, exited code) h = cc
found_by_name name p (es, threw failure) h = cc

module _ (b : Backend) where
  all_policies_silent : (all_policies b).0 ≡ []
  unfolding all_policies
  all_policies_silent = ground arith

  pub get_policy_from_name_silent : (name : String) → (get_policy_from_name b name).0 ≡ []
  unfolding get_policy_from_name
  get_policy_from_name_silent name = ground (arith, all_policies_silent)

  pub get_policy_from_name_sound :
      (name : String) (p : AnyPolicy)
      → (get_policy_from_name b name).1 ≡ returned (some p)
      → name_of p ≡ name
  unfolding get_policy_from_name
  get_policy_from_name_sound name p h = found_by_name name p (all_policies b) h

  -- `getPolicyFromName` never leaves the process.
  pub get_policy_from_name_stays :
      (name : String) (code : ℕ) → ¬ ((get_policy_from_name b name).1 ≡ exited code)
  unfolding get_policy_from_name all_policies
  get_policy_from_name_stays name code h = ground arith

  -- With no event before it, what `getPolicyFromName` returns is the whole of its run.
  pub looked_up :
      (name : String) (r : Option AnyPolicy)
      → (get_policy_from_name b name).1 ≡ returned r
      → get_policy_from_name b name ≡ pure r
  looked_up name r h = ap₂ (λ x y. (x, y)) (get_policy_from_name_silent name) h
