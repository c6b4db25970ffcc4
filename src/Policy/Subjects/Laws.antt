-- ===== src/Policy/Subjects/Laws.antt =====
-- What the four handlers send to the backend, and when they report success.
use zli.Policy.Service.{printed_table}
use zli.Policy.Service.{printed_json}
use zli.Policy.Service.{found_or_exit}
use zli.Policy.Service.{finish}
use zli.Policy.Service.{Message}
use zli.Policy.Service.{exists_already}
use zli.Policy.Service.{defined}
use zli.Policy.Service.{fail}
use zli.Policy.Service.{fail}
use zli.Policy.Service.{fail}
use zli.Policy.Service.{await_or_exit}
use zli.Prelude.{
  String, string_key, Bool, false, not, Option, none, some, List, [], ◌∷◌, ◌++◌, ◌≡◌, refl, ◌∙◌,
  sym, ap, arith, any, if◌then◌else◌, All,
}
use zli.Effect.{returned, exited, resolved, Run, ◌>>=◌, ◌>>◌}
use zli.Effect.Laws.{>>=-All}
use zli.Policy.Types.{
  kubernetes, target_connect, proxy, just_in_time, session_recording, user, Subject, AnyPolicy,
  name_of, subjects_of, with_subjects, patch_of,
}
use zli.Policy.Service.{
  Backend, Event, logged_error, logged_info, patched, UserSummary, added_to, get_policy_from_name,
  edit_policy,
}
use zli.Policy.Service.Requests.{
  lookup-All, request-All, await_or_exit-All, found_or_exit-All, defined-All, guarded-All,
  lookup_of_exit, awaited_of_success, found_or_exit_inv, defined_inv,
}
use zli.Policy.Subjects.{
  matches_user, matches_subject, add_user_to_policy, delete_user_from_policy, add_subject_to_policy,
  delete_subject_from_policy,
}

-- A request that the event sends is the update of the policy that the backend listed under the name:
-- with the subjects that were listed, what it sends is that policy.
abbrev pub EditsSubjects : Backend → String → Event → Type 0
EditsSubjects b name (patched q) =
    (p : AnyPolicy) × (edited : AnyPolicy) × ((get_policy_from_name b name).1 ≡ returned (some p))
    × (name_of p ≡ name)
    × (q ≡ patch_of edited)
    × (with_subjects (subjects_of p) edited ≡ p)
EditsSubjects b name (logged_error m) = Unit
EditsSubjects b name (logged_info m) = Unit
EditsSubjects b name (printed_json xs) = Unit
EditsSubjects b name (printed_table xs) = Unit

with_subjects-again :
    (s : List Subject) (p : AnyPolicy) → with_subjects (subjects_of p) (with_subjects s p) ≡ p
unfolding with_subjects subjects_of
with_subjects-again s (kubernetes p) = refl
with_subjects-again s (target_connect p) = refl
with_subjects-again s (proxy p) = refl
with_subjects-again s (just_in_time p) = refl
with_subjects-again s (session_recording p) = refl

edit_policy-EditsSubjects :
    (b : Backend) (name : String) (p : AnyPolicy) (s : List Subject)
    → (get_policy_from_name b name).1 ≡ returned (some p)
    → name_of p ≡ name
    → All (EditsSubjects b name) (edit_policy b (with_subjects s p)).0
unfolding edit_policy
edit_policy-EditsSubjects b name p s g h =
    request-All (EditsSubjects b name) (patched (patch_of (with_subjects s p))) (b.answer_patch _)
      (p, with_subjects s p, g, h, refl, with_subjects-again s p)

-- How the handler that adds a user goes on with the policy that it found, if it reports success.
added :
    (b : Backend) (email name : String) (u : UserSummary) (r : Option AnyPolicy)
    → (do
      policy ← defined r
      if any (matches_user u.id) (subjects_of policy) then fail (exists_already email name) else do
        edit_policy b (
            with_subjects
              (subjects_of policy ++ record { id = u.id; subject_type = user } ∷ [])
              policy)
        finish (added_to email name)).1
      ≡ exited 0
    → (p : AnyPolicy) × (r ≡ some p)
      × (any (matches_user u.id) (subjects_of p) ≡ false)
      × (b.answer_patch (
            patch_of
              (with_subjects (subjects_of p ++ record { id = u.id; subject_type = user } ∷ []) p))
          ≡ resolved tt)
unfolding edit_policy
added b email name u none h = absurd (cc)
added b email name u (some p) h = (p, refl, ground arith, ground arith)

module _ (b : Backend) (email name : String) where
  abbrev Edits : Event → Type 0
  Edits = EditsSubjects b name

  edits :
      (check : Option AnyPolicy → Run Event AnyPolicy) (guard : AnyPolicy → Bool)
      (members : AnyPolicy → List Subject) (refused done : Message)
      → ((r : Option AnyPolicy) → All Edits (check r).0)
      → ((r : Option AnyPolicy) (p : AnyPolicy) → (check r).1 ≡ returned p → r ≡ some p)
      → All Edits
          (get_policy_from_name b name >>= λ found. check found >>= λ policy.
            if guard policy
            then fail refused
            else (edit_policy b (with_subjects (members policy) policy) >> finish done)).0
  edits check guard members refused done h k = lookup-All Edits b name check _ h k (λ p e g.
      guarded-All Edits (guard p) refused done (edit_policy b (with_subjects (members p) p)) tt tt
        (edit_policy-EditsSubjects b name p (members p) g e))

  -- Every request that one of the four handlers sends is the update of the policy that the backend
  -- listed under the given name, with its fields but the subjects as they were listed.
  pub handlers-EditsSubjects :
      All Edits (add_user_to_policy b email name).0
      × All Edits (delete_user_from_policy b email name).0
      × All Edits (add_subject_to_policy b email name).0
      × All Edits (delete_subject_from_policy b email name).0
  unfolding add_user_to_policy delete_user_from_policy add_subject_to_policy
      delete_subject_from_policy
  handlers-EditsSubjects = (
    >>=-All Edits (await_or_exit (b.get_user_by_email email) _) _
        (await_or_exit-All Edits (b.get_user_by_email email) _ tt)
        (λ u _.
          edits defined (λ p. any (matches_user u.id) (subjects_of p)) _ _ _ (defined-All Edits)
            defined_inv),
    >>=-All Edits (await_or_exit (b.get_user_by_email email) _) _
        (await_or_exit-All Edits (b.get_user_by_email email) _ tt)
        (λ u _.
          edits (λ r. found_or_exit r name) (λ p. not (any (matches_user u.id) (subjects_of p))) _ _
            _ (found_or_exit-All Edits name tt) (found_or_exit_inv name)),
    >>=-All Edits (await_or_exit (b.get_subject_by_email email) _) _
        (await_or_exit-All Edits (b.get_subject_by_email email) _ tt)
        (λ u _.
          edits defined (λ p. any (matches_subject u.id) (subjects_of p)) _ _ _ (defined-All Edits)
            defined_inv),
    >>=-All Edits (await_or_exit (b.get_subject_by_email email) _) _
        (await_or_exit-All Edits (b.get_subject_by_email email) _ tt)
        (λ u _.
          edits (λ r. found_or_exit r name) (λ p. not (any (matches_subject u.id) (subjects_of p)))
            _ _ _ (found_or_exit-All Edits name tt) (found_or_exit_inv name)),
  )

-- A handler that adds a user reports success only if the policy is there, does not have the user,
-- and the backend has accepted the policy with the user at the end of its subjects.
add_user_to_policy_success :
    (b : Backend) (email name : String)
    → (add_user_to_policy b email name).1 ≡ exited 0
    → (u : UserSummary) × (p : AnyPolicy) × (b.get_user_by_email email ≡ resolved u)
      × ((get_policy_from_name b name).1 ≡ returned (some p))
      × (any (matches_user u.id) (subjects_of p) ≡ false)
      × (b.answer_patch (
            patch_of
              (with_subjects (subjects_of p ++ record { id = u.id; subject_type = user } ∷ []) p))
          ≡ resolved tt)
unfolding add_user_to_policy
add_user_to_policy_success b email name h =
    let (u, e, s) = awaited_of_success (b.get_user_by_email email) _ _ h in
    let (r, g, q) = lookup_of_exit b name 0 _ (sym (ap (λ m. m.1) s) ∙ h) in
    let (p, r_is, absent, accepted) =
      added b email name u r (sym (ap (λ m. m.1) q) ∙ sym (ap (λ m. m.1) s) ∙ h) in
    (u, p, e, g ∙ ap returned r_is, absent, accepted)
