-- ===== src/Policy/Subjects.antt =====
-- Users and subjects of a policy: handlers/policy/policy-user/{add,delete}-user-policy.handler.ts
-- and handlers/policy/policy-subject/{add,delete}-subject-policy.handler.ts.
pub mod Laws
pub mod RoundTrip
use zli.Prelude.{
  String, string_key, ◌==◌, Bool, true, false, not, ◌&&◌, Option, none, some, List, [], ◌∷◌, ◌++◌,
  any, filter, if◌then◌else◌,
}
use zli.Effect.{Run, pure, ◌>>=◌, ◌>>◌}
use zli.Policy.Types.{
  SubjectType, user, service_account, other_subject, Subject, AnyPolicy, subjects_of, with_subjects,
}
use zli.Policy.Service.{
  found_or_exit, Backend, Event, unable_to_find_user, unable_to_find_subject, unable_to_find_policy,
  exists_already, added_to, no_such_member, deleted_from, await_or_exit, fail, finish, defined,
  get_policy_from_name, edit_policy,
}

abbrev is_user : SubjectType → Bool
is_user user = true
is_user _ = false

abbrev is_user_or_service_account : SubjectType → Bool
is_user_or_service_account user = true
is_user_or_service_account service_account = true
is_user_or_service_account _ = false

-- `s.type === SubjectType.User && s.id === id`
abbrev pub matches_user : String → Subject → Bool
matches_user id s = is_user s.subject_type && s.id == id

abbrev pub matches_subject : String → Subject → Bool
matches_subject id s = is_user_or_service_account s.subject_type && s.id == id

-- `policy.subjects.filter(s => s.id !== id)`
abbrev pub without_id : String → List Subject → List Subject
without_id id = filter (λ s. not (s.id == id))

module _ (b : Backend) where
  -- The guard `policy === null` never holds, since `find` gives `undefined` when there is no such
  -- policy: the next line then reads a property of it.
  unfoldable pub add_user_to_policy : String → String → Run Event (Unit {0})
  add_user_to_policy user_email policy_name = do
    summary ← await_or_exit (b.get_user_by_email user_email) (unable_to_find_user user_email)
    found ← get_policy_from_name b policy_name
    policy ← defined found
    if any (matches_user summary.id) (subjects_of policy)
        then fail (exists_already user_email policy_name)
        else do
          edit_policy b (
              with_subjects
                (subjects_of policy ++ record { id = summary.id; subject_type = user } ∷ []) policy)
          finish (added_to user_email policy_name)

  unfoldable pub delete_user_from_policy : String → String → Run Event (Unit {0})
  delete_user_from_policy user_email policy_name = do
    summary ← await_or_exit (b.get_user_by_email user_email) (unable_to_find_user user_email)
    found ← get_policy_from_name b policy_name
    policy ← found_or_exit found policy_name
    if not (any (matches_user summary.id) (subjects_of policy))
        then fail (no_such_member user_email policy_name)
        else do
          edit_policy b (with_subjects (without_id summary.id (subjects_of policy)) policy)
          finish (deleted_from user_email policy_name)

  unfoldable pub add_subject_to_policy : String → String → Run Event (Unit {0})
  add_subject_to_policy subject_email policy_name = do
    summary ←
        await_or_exit (b.get_subject_by_email subject_email) (unable_to_find_subject subject_email)
    found ← get_policy_from_name b policy_name
    policy ← defined found
    if any (matches_subject summary.id) (subjects_of policy)
        then fail (exists_already subject_email policy_name)
        else do
          edit_policy b (
              with_subjects
                (subjects_of policy
                  ++ record { id = summary.id; subject_type = summary.subject_type } ∷ [])
                policy)
          finish (added_to subject_email policy_name)

  unfoldable pub delete_subject_from_policy : String → String → Run Event (Unit {0})
  delete_subject_from_policy subject_email policy_name = do
    summary ←
        await_or_exit (b.get_subject_by_email subject_email) (unable_to_find_subject subject_email)
    found ← get_policy_from_name b policy_name
    policy ← found_or_exit found policy_name
    if not (any (matches_subject summary.id) (subjects_of policy))
        then fail (no_such_member subject_email policy_name)
        else do
          edit_policy b (with_subjects (without_id summary.id (subjects_of policy)) policy)
          finish (deleted_from subject_email policy_name)
