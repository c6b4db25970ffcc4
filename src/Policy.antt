-- ===== src/Policy.antt =====
-- The policy commands: handlers/policy/policy-user, policy-subject, policy-group,
-- policy-targetuser, policy-targetgroup and policy-create, over
-- services/policy/policy.services.ts and the policy service of
-- http-services/policy/policy.http-services.ts.
pub mod Types
pub mod Service
pub mod Subjects
pub mod Identifiers
pub mod Groups
pub mod TargetUsers
pub mod TargetGroups
pub mod Create
mod Tests
