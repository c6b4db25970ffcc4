-- ===== src/Quickstart/Types.antt =====
-- services/quickstart/quickstart.service.types.ts, and what the service reads of the summaries that
-- the backend answers with.
use zli.Prelude.{String, Bool, Option}
use zli.Quickstart.Hosts.{ValidSshHost, Port}

-- The fields of the configuration of an SSH connection that the service sets.
pub record SshConfig : Type 0 where
  pub host : String
  pub username : String
  pub identity : String
  pub port : Port
  pub passphrase : Option String

pub record ValidSshHostAndConfig : Type 0 where
  pub config : SshConfig
  pub ssh_host : ValidSshHost

pub record RegistrableSshHost : Type 0 where
  pub host : ValidSshHostAndConfig
  pub env_id : String

-- `is_online` is `status === TargetStatus.Online`.
pub record BzeroAgentSummary : Type 0 where
  pub id : String
  pub name : String
  pub environment_id : String
  pub is_online : Bool

pub record RegisteredSshHost : Type 0 where
  pub target_summary : BzeroAgentSummary
  pub ssh_host : ValidSshHost
