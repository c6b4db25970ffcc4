-- ===== src/Login/Listener/Settling.antt =====
-- How the promise of `login` is settled.
use zli.Prelude.{string_key, Bool, true, false, List, [], ◌∷◌}
use zli.Login.Listener.{
  CallbackPath, logout_callback, Listener, ListenerEvent, promise_rejected, promise_resolved,
  tokens_passed, Listening, Arrival, request, timeout,
}

abbrev pub is_passed : ListenerEvent → Bool
is_passed tokens_passed = true
is_passed _ = false

-- `resolve` is called, the promise is rejected or tokens were passed on, or neither.
data Weight : Type 0 where
  resolves decides other : Weight

abbrev weight : ListenerEvent → Weight
weight promise_resolved = resolves
weight (promise_rejected failure) = decides
weight tokens_passed = decides
weight _ = other

abbrev WithRest : Weight → Type 0 → Type 0
WithRest resolves rest = ⊥
WithRest decides rest = Unit
WithRest other rest = rest

-- The promise is not resolved before it is rejected or tokens were passed on.
abbrev IsEarned : List ListenerEvent → Type 0
IsEarned [] = Unit
IsEarned (e ∷ es) = WithRest (weight e) (IsEarned es)

-- The promise was rejected or tokens were passed on, and it was not resolved before.
abbrev IsDecided : List ListenerEvent → Type 0
IsDecided [] = ⊥
IsDecided (e ∷ es) = WithRest (weight e) (IsDecided es)

-- The events of a step leave the promise to be earned.
record Earns {A : Type 0} (m : Listening A) : Type 0 where
  at : (l : Listener) → IsEarned (m l).0.0

abbrev is_logout_path : CallbackPath → Bool
is_logout_path logout_callback = true
is_logout_path _ = false

abbrev pub is_logout : Arrival → Bool
is_logout (request r) = is_logout_path r.path
is_logout timeout = false
