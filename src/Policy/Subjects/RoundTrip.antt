-- ===== src/Policy/Subjects/RoundTrip.antt =====
-- Deleting a user that was added gives the policy back.
use zli.Prelude.{
  String, string_key, ◌==◌, true, false, some, List, [], ◌∷◌, ◌++◌, ◌≡◌, refl, arith, eq_refl, any,
}
use zli.Effect.{returned, exited, resolved}
use zli.Policy.Types.{user, Subject, AnyPolicy, subjects_of, with_subjects, patch_of}
use zli.Policy.Service.{
  Backend, logged_info, patched, UserSummary, added_to, deleted_from, get_policy_from_name,
  edit_policy,
}
use zli.Policy.Service.Laws.{looked_up}
use zli.Policy.Subjects.{matches_user, without_id, add_user_to_policy, delete_user_from_policy}

subjects_of-with_subjects : (s : List Subject) (p : AnyPolicy) → subjects_of (with_subjects s p) ≡ s
unfolding subjects_of with_subjects
subjects_of-with_subjects s p = ground arith

with_subjects_twice :
    (s t : List Subject) (p : AnyPolicy) → with_subjects s (with_subjects t p) ≡ with_subjects s p
unfolding with_subjects
with_subjects_twice s t p = ground arith

with_subjects-subjects_of : (p : AnyPolicy) → with_subjects (subjects_of p) p ≡ p
unfolding subjects_of with_subjects
with_subjects-subjects_of p = ground arith

without_id-append :
    (id : String) (s : List Subject)
    → any (λ x. x.id == id) s ≡ false
    → without_id id (s ++ record { id = id; subject_type = user } ∷ []) ≡ s
without_id-append id [] h = ground (arith, eq_refl id)
without_id-append id (x ∷ s) h = ground (arith, without_id-append id s)

matches_last :
    (id : String) (s : List Subject)
    → any (matches_user id) (s ++ record { id = id; subject_type = user } ∷ []) ≡ true
matches_last id [] = ground (arith, eq_refl id)
matches_last id (x ∷ s) = ground (arith, matches_last id s)

matches_none :
    (id : String) (s : List Subject)
    → any (λ x. x.id == id) s ≡ false
    → any (matches_user id) s ≡ false
matches_none id [] h = refl
matches_none id (x ∷ s) h = ground (arith, matches_none id s)

-- The policy with the user at the end of its subjects.
abbrev pub with_user : String → AnyPolicy → AnyPolicy
with_user id p = with_subjects (subjects_of p ++ record { id = id; subject_type = user } ∷ []) p

module _ (b later : Backend) (email name : String) (u : UserSummary) (p : AnyPolicy) where
  add-accepted :
      b.get_user_by_email email ≡ resolved u
      → (get_policy_from_name b name).1 ≡ returned (some p)
      → any (λ s. s.id == u.id) (subjects_of p) ≡ false
      → b.answer_patch (patch_of (with_user u.id p)) ≡ resolved tt
      → add_user_to_policy b email name
        ≡ (patched (patch_of (with_user u.id p)) ∷ logged_info (added_to email name) ∷ [], exited 0)
  unfolding add_user_to_policy edit_policy
  add-accepted h f a k = rw (h, looked_up b name (some p) f, matches_none u.id (subjects_of p) a, k)

  delete-accepted :
      later.get_user_by_email email ≡ resolved u
      → (get_policy_from_name later name).1 ≡ returned (some (with_user u.id p))
      → any (λ s. s.id == u.id) (subjects_of p) ≡ false
      → later.answer_patch (patch_of p) ≡ resolved tt
      → delete_user_from_policy later email name
        ≡ (patched (patch_of p) ∷ logged_info (deleted_from email name) ∷ [], exited 0)
  unfolding delete_user_from_policy edit_policy
  delete-accepted h f a k = rw (
    h,
    looked_up later name (some (with_user u.id p)) f,
    subjects_of-with_subjects (subjects_of p ++ record { id = u.id; subject_type = user } ∷ []) p,
    matches_last u.id (subjects_of p),
    without_id-append u.id (subjects_of p) a,
    with_subjects_twice (subjects_of p)
        (subjects_of p ++ record { id = u.id; subject_type = user } ∷ []) p,
    with_subjects-subjects_of p,
    k,
  )

-- If the policy has no subject with the user's id, adding the user and then deleting it sends the
-- policy with the user at its end, then the policy as it was, and both report success.
pub delete_user-add_user :
    (b later : Backend) (email name : String) (u : UserSummary) (p : AnyPolicy)
    → b.get_user_by_email email ≡ resolved u
    → (get_policy_from_name b name).1 ≡ returned (some p)
    → any (λ s. s.id == u.id) (subjects_of p) ≡ false
    → b.answer_patch (patch_of (with_user u.id p)) ≡ resolved tt
    → later.get_user_by_email email ≡ resolved u
    → (get_policy_from_name later name).1 ≡ returned (some (with_user u.id p))
    → later.answer_patch (patch_of p) ≡ resolved tt
    → (add_user_to_policy b email name ≡ (
      patched (patch_of (with_user u.id p)) ∷ logged_info (added_to email name) ∷ [],
      exited 0,
    ))
      × (delete_user_from_policy later email name
          ≡ (patched (patch_of p) ∷ logged_info (deleted_from email name) ∷ [], exited 0))
delete_user-add_user b later email name u p h f a k h' f' k' =
    (add-accepted b later email name u p h f a k, delete-accepted b later email name u p h' f' a k')
