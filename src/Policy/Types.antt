-- ===== src/Policy/Types.antt =====
-- Policies as the service lists them, and the requests that update them. The summary types come
-- from the submodule webshell-common-ts; a record here has the fields that the client reads.
use zli.Prelude.{ℕ, String, Bool, Option, List, map}

-- `other_subject` stands for any value that the client does not name.
pub data SubjectType : Type 0 where
  user service_account : SubjectType
  other_subject : String → SubjectType

pub record Subject : Type 0 where
  pub id : String
  pub subject_type : SubjectType

pub record Group : Type 0 where
  pub id : String
  pub name : String

-- A target of a policy: its id and the name of its type.
pub record PolicyTarget : Type 0 where
  pub id : String
  pub target_type : String

-- What every policy has, beside the details of its kind.
pub record Policy {ℓ} (D : Type ℓ) : Type ℓ where
  pub id : String
  pub name : String
  pub description : Option String
  pub subjects : List Subject
  pub groups : List Group
  pub details : D

-- Environments and clusters by their ids, cluster users and groups by their names.
pub record KubernetesDetails : Type 0 where
  pub environments : Option (List String)
  pub clusters : Option (List String)
  pub cluster_users : List String
  pub cluster_groups : List String

pub record TargetConnectDetails : Type 0 where
  pub environments : Option (List String)
  pub targets : Option (List PolicyTarget)
  pub target_users : List String
  pub verbs : List String

pub record ProxyDetails : Type 0 where
  pub environments : Option (List String)
  pub targets : Option (List PolicyTarget)
  pub target_users : List String

pub record ChildPolicy : Type 0 where
  pub id : String
  pub name : String

pub record JustInTimeDetails : Type 0 where
  pub child_policies : List ChildPolicy
  pub automatically_approved : Bool
  pub duration : ℕ

pub record SessionRecordingDetails : Type 0 where
  pub record_input : Bool

-- The union that `getPolicyFromName` returns; the constructor is the field `type`.
pub data AnyPolicy : Type 0 where
  kubernetes : Policy KubernetesDetails → AnyPolicy
  target_connect : Policy TargetConnectDetails → AnyPolicy
  proxy : Policy ProxyDetails → AnyPolicy
  just_in_time : Policy JustInTimeDetails → AnyPolicy
  session_recording : Policy SessionRecordingDetails → AnyPolicy

unfoldable pub name_of : AnyPolicy → String
name_of (kubernetes p) = p.name
name_of (target_connect p) = p.name
name_of (proxy p) = p.name
name_of (just_in_time p) = p.name
name_of (session_recording p) = p.name

unfoldable pub subjects_of : AnyPolicy → List Subject
subjects_of (kubernetes p) = p.subjects
subjects_of (target_connect p) = p.subjects
subjects_of (proxy p) = p.subjects
subjects_of (just_in_time p) = p.subjects
subjects_of (session_recording p) = p.subjects

unfoldable pub groups_of : AnyPolicy → List Group
groups_of (kubernetes p) = p.groups
groups_of (target_connect p) = p.groups
groups_of (proxy p) = p.groups
groups_of (just_in_time p) = p.groups
groups_of (session_recording p) = p.groups

-- `policy.subjects = subjects`
unfoldable pub with_subjects : List Subject → AnyPolicy → AnyPolicy
with_subjects s (kubernetes p) = kubernetes (record p { subjects = s })
with_subjects s (target_connect p) = target_connect (record p { subjects = s })
with_subjects s (proxy p) = proxy (record p { subjects = s })
with_subjects s (just_in_time p) = just_in_time (record p { subjects = s })
with_subjects s (session_recording p) = session_recording (record p { subjects = s })

-- `policy.groups = groups`
unfoldable pub with_groups : List Group → AnyPolicy → AnyPolicy
with_groups g (kubernetes p) = kubernetes (record p { groups = g })
with_groups g (target_connect p) = target_connect (record p { groups = g })
with_groups g (proxy p) = proxy (record p { groups = g })
with_groups g (just_in_time p) = just_in_time (record p { groups = g })
with_groups g (session_recording p) = session_recording (record p { groups = g })

-- The body of an update request and the id in its route; the constructor is the route's kind.
pub record UpdateRequest {ℓ} (D : Type ℓ) : Type ℓ where
  pub route_id : String
  pub name : String
  pub subjects : List Subject
  pub groups : List Group
  pub description : Option String
  pub details : D

-- A just-in-time request has the ids of the child policies only.
pub record JustInTimeUpdate : Type 0 where
  pub child_policies : List String
  pub automatically_approved : Bool
  pub duration : ℕ

pub data Patch : Type 0 where
  patch_kubernetes : UpdateRequest KubernetesDetails → Patch
  patch_target_connect : UpdateRequest TargetConnectDetails → Patch
  patch_proxy : UpdateRequest ProxyDetails → Patch
  patch_just_in_time : UpdateRequest JustInTimeUpdate → Patch
  patch_session_recording : UpdateRequest SessionRecordingDetails → Patch

abbrev pub request {ℓ κ} : {D : Type ℓ} {E : Type κ} → Policy D → E → UpdateRequest E
request p details = record {
  route_id = p.id;
  name = p.name;
  subjects = p.subjects;
  groups = p.groups;
  description = p.description;
  details = details;
}

abbrev pub just_in_time_update : JustInTimeDetails → JustInTimeUpdate
just_in_time_update d = record {
  child_policies = map (λ (c : ChildPolicy). c.id) d.child_policies;
  automatically_approved = d.automatically_approved;
  duration = d.duration;
}

-- `EditKubernetesPolicy`, ..., by the policy's kind, as `editPolicy` chooses them.
unfoldable pub patch_of : AnyPolicy → Patch
patch_of (kubernetes p) = patch_kubernetes (request p p.details)
patch_of (target_connect p) = patch_target_connect (request p p.details)
patch_of (proxy p) = patch_proxy (request p p.details)
patch_of (just_in_time p) = patch_just_in_time (request p (just_in_time_update p.details))
patch_of (session_recording p) = patch_session_recording (request p p.details)
