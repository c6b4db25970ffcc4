-- ===== src/Policy/Service.antt =====
-- The services that the handlers call, and `getPolicyFromName` and `editPolicy` over them.
pub mod Laws
pub mod Requests
use zli.Prelude.{String, string_key, ◌==◌, Option, none, some, List, ◌++◌, map, find}
use zli.Effect.{
  Failure, type_error, Run, pure, throw, emit, clean_exit, Settled, resolved, rejected, ◌>>=◌, ◌>>◌,
}
use zli.Policy.Types.{
  SubjectType, Policy, KubernetesDetails, TargetConnectDetails, ProxyDetails, JustInTimeDetails,
  SessionRecordingDetails, AnyPolicy, kubernetes, target_connect, proxy, just_in_time,
  session_recording, name_of, Patch, patch_of,
}

pub record UserSummary : Type 0 where
  pub id : String
  pub email : String

pub record SubjectSummary : Type 0 where
  pub id : String
  pub email : String
  pub subject_type : SubjectType

pub record GroupSummary : Type 0 where
  pub idp_group_id : String
  pub name : String

-- The answers of the backend to the requests that the handlers make; any of them can fail.
pub record Backend : Type 0 where
  pub list_kubernetes : Settled (List (Policy KubernetesDetails))
  pub list_target_connect : Settled (List (Policy TargetConnectDetails))
  pub list_proxy : Settled (List (Policy ProxyDetails))
  pub list_just_in_time : Settled (List (Policy JustInTimeDetails))
  pub list_session_recording : Settled (List (Policy SessionRecordingDetails))
  pub get_user_by_email : String → Settled UserSummary
  pub get_subject_by_email : String → Settled SubjectSummary
  pub list_groups : Settled (List GroupSummary)
  pub answer_patch : Patch → Settled (Unit {0})

-- The messages, one constructor for each text of the handlers, less the word for the kind of member.
pub data Message : Type 0 where
  unable_to_find_user unable_to_find_subject unable_to_find_group unable_to_find_policy :
      String → Message
  unable_to_find_kubernetes_policy : String → Message
  exists_already added_to : (what policy_name : String) → Message
  no_such_member deleted_from : (what policy_name : String) → Message
  adding_not_supported deleting_not_supported : (policy_name : String) → Message
  no_available_members : Message

pub data Event : Type 0 where
  logged_error logged_info : Message → Event
  patched : Patch → Event
  printed_json printed_table : List String → Event

-- `await promise`
abbrev pub await {ℓ} : {A : Type ℓ} → Settled A → Run Event A
await (resolved a) = pure a
await (rejected failure) = throw failure

-- `try { await promise } catch { logger.error(message); await cleanExit(1, logger) }`
abbrev pub await_or_exit {ℓ} : {A : Type ℓ} → Settled A → Message → Run Event A
await_or_exit (resolved a) message = pure a
await_or_exit (rejected failure) message = do emit (logged_error message); clean_exit 1

-- `logger.error(message); await cleanExit(1, logger)`
abbrev pub fail {ℓ} : {A : Type ℓ} → Message → Run Event A
fail message = do emit (logged_error message); clean_exit 1

-- `logger.info(message); await cleanExit(0, logger)`
abbrev pub finish : Message → Run Event (Unit {0})
finish message = do emit (logged_info message); clean_exit 0

-- Reading a property of `undefined` throws.
abbrev pub defined {ℓ} : {A : Type ℓ} → Option A → Run Event A
defined none = throw type_error
defined (some a) = pure a

-- `if (!policy) { logger.error(...); await cleanExit(1, logger) }`
abbrev pub found_or_exit : Option AnyPolicy → String → Run Event AnyPolicy
found_or_exit none policy_name = fail (unable_to_find_policy policy_name)
found_or_exit (some policy) policy_name = pure policy

module _ (b : Backend) where
  -- `Promise.all` of the five lists: it rejects if any of them does.
  unfoldable pub all_policies : Run Event (List AnyPolicy)
  all_policies = do
    kube ← await b.list_kubernetes
    target ← await b.list_target_connect
    virtual ← await b.list_proxy
    jit ← await b.list_just_in_time
    recording ← await b.list_session_recording
    pure (
        map kubernetes kube
        ++ (map target_connect target
            ++ (map proxy virtual ++ (map just_in_time jit ++ map session_recording recording))))

  unfoldable pub get_policy_from_name : String → Run Event (Option AnyPolicy)
  get_policy_from_name policy_name = do
    policies ← all_policies
    pure (find (λ p. name_of p == policy_name) policies)

  unfoldable pub edit_policy : AnyPolicy → Run Event (Unit {0})
  edit_policy policy = do emit (patched (patch_of policy)); await (b.answer_patch (patch_of policy))
