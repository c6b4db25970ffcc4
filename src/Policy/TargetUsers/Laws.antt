-- ===== src/Policy/TargetUsers/Laws.antt =====
-- The handlers of target users against one description for every kind of policy.
use zli.Prelude.{fun_ext}
use zli.Prelude.{ap}
use zli.Prelude.{
  String, string_key, Bool, not, Option, none, some, List, [], ◌∷◌, ◌++◌, ◌≡◌, refl, arith,
  if◌then◌else◌,
}
use zli.Effect.{Run, ◌>>=◌, ◌>>◌}
use zli.Policy.Types.{AnyPolicy, kubernetes, target_connect, proxy, just_in_time, session_recording}
use zli.Policy.Service.{
  Backend, Event, Message, unable_to_find_policy, exists_already, added_to, no_such_member,
  deleted_from, fail, finish, edit_policy,
}
use zli.Policy.TargetUsers.{
  Candidates, found, has, without, with_cluster_users, with_target_users, with_proxy_users,
  none_found, candidates, add_to_first, delete_from_first, users_of_first, print_members,
  add_target_user_to_policy, delete_target_user_from_policy, list_target_users,
}

-- The policy that a name stands for: a Kubernetes policy before a target connect policy before a
-- proxy policy.
abbrev pub first_of : Candidates → Option AnyPolicy
first_of (found (some p) q r) = some (kubernetes p)
first_of (found none (some p) r) = some (target_connect p)
first_of (found none none (some p)) = some (proxy p)
first_of (found none none none) = none

abbrev target_users_of : AnyPolicy → List String
target_users_of (kubernetes p) = p.details.cluster_users
target_users_of (target_connect p) = p.details.target_users
target_users_of (proxy p) = p.details.target_users
target_users_of _ = []

abbrev map_target_users : (List String → List String) → AnyPolicy → AnyPolicy
map_target_users f (kubernetes p) = kubernetes (with_cluster_users (f p.details.cluster_users) p)
map_target_users f (target_connect p) =
    target_connect (with_target_users (f p.details.target_users) p)
map_target_users f (proxy p) = proxy (with_proxy_users (f p.details.target_users) p)
map_target_users f (just_in_time p) = just_in_time p
map_target_users f (session_recording p) = session_recording p

module _ (b : Backend) (name : String) where
  -- One edit of the target users of a policy.
  abbrev pub edit_or_refuse :
      (List String → Bool)
      → (List String → List String)
      → Message
      → Message
      → Option AnyPolicy
      → Run Event (Unit {0})
  edit_or_refuse guard f refused done none = fail (unable_to_find_policy name)
  edit_or_refuse guard f refused done (some p) =
      if guard (target_users_of p)
      then fail refused
      else (edit_policy b (map_target_users f p) >> finish done)

  add_to_chosen :
      (c : Candidates) (user : String)
      → (if none_found c
          then fail (unable_to_find_policy name)
          else (add_to_first b c user name >> finish (added_to user name)))
        ≡ edit_or_refuse
            (has user)
            (λ us. us ++ user ∷ [])
            (exists_already user name)
            (added_to user name)
            (first_of c)
  unfolding add_to_first
  add_to_chosen (found (some p) q r) user = ground arith
  add_to_chosen (found none (some p) r) user = ground arith
  add_to_chosen (found none none (some p)) user = ground arith
  add_to_chosen (found none none none) user = ground arith

  delete_from_chosen :
      (c : Candidates) (user : String)
      → (if none_found c
          then fail (unable_to_find_policy name)
          else (delete_from_first b c user name >> finish (deleted_from user name)))
        ≡ edit_or_refuse
            (λ us. not (has user us))
            (without user)
            (no_such_member user name)
            (deleted_from user name)
            (first_of c)
  unfolding delete_from_first
  delete_from_chosen (found (some p) q r) user = ground arith
  delete_from_chosen (found none (some p) r) user = ground arith
  delete_from_chosen (found none none (some p)) user = ground arith
  delete_from_chosen (found none none none) user = ground arith

  abbrev pub list_or_refuse : Bool → Option AnyPolicy → Run Event (Unit {0})
  list_or_refuse json none = fail (unable_to_find_policy name)
  list_or_refuse json (some p) = print_members json (target_users_of p)

  list_chosen :
      (c : Candidates) (json : Bool)
      → (if none_found c
          then fail (unable_to_find_policy name)
          else print_members json (users_of_first c))
        ≡ list_or_refuse json (first_of c)
  unfolding users_of_first
  list_chosen (found (some p) q r) json = refl
  list_chosen (found none (some p) r) json = refl
  list_chosen (found none none (some p)) json = refl
  list_chosen (found none none none) json = refl

  -- The handlers that add, delete and list target users do the same for every kind of policy: they
  -- take the first candidate, refuse if there is none or if the guard holds of its users, and
  -- otherwise send it with its users changed, or print them. No run reports a kind of policy that is
  -- not supported.
  pub target_users_lem :
      (user : String) (json : Bool)
      → (add_target_user_to_policy b user name ≡ (
          candidates b name >>= λ c.
          edit_or_refuse
            (has user)
            (λ us. us ++ user ∷ [])
            (exists_already user name)
            (added_to user name)
            (first_of c)))
        × (delete_target_user_from_policy b user name ≡ (
            candidates b name >>= λ c.
            edit_or_refuse
              (λ us. not (has user us))
              (without user)
              (no_such_member user name)
              (deleted_from user name)
              (first_of c)))
        × (list_target_users b json name
            ≡ (candidates b name >>= λ c. list_or_refuse json (first_of c)))
  unfolding add_target_user_to_policy delete_target_user_from_policy list_target_users
  target_users_lem user json = (
    ap (λ k. candidates b name >>= k) (fun_ext (λ c. add_to_chosen c user)),
    ap (λ k. candidates b name >>= k) (fun_ext (λ c. delete_from_chosen c user)),
    ap (λ k. candidates b name >>= k) (fun_ext (λ c. list_chosen c json)),
  )
