-- ===== src/Lists/Connections.antt =====
-- services/list-connections/list-connections.service.ts and utils/list-utils.ts.
use zli.Prelude.{
  String, string_key, ◌==◌, Bool, Option, none, some, List, [], ◌∷◌, ◌++◌, map, filter, ◌≡◌, refl,
  ap,
}
use Prim.Native.String.{◌++◌ as text_append}
use zli.Effect.{type_error, Settled, resolved, rejected}
use zli.Shell.{last}
use zli.Lists.Targets.{after}
use zli.Lists.Targets.Permitted.{Resolves, Resolves-after, Resolves-trivial}

-- A shell connection of the space; `is_open` is `state === ConnectionState.Open`.
pub record SpaceConnection : Type 0 where
  pub id : String
  pub target_id : String
  pub target_user : String
  pub time_created : String
  pub is_open : Bool

pub record TargetName : Type 0 where
  pub id : String
  pub name : String

pub record ShellConnectionInfo : Type 0 where
  pub connection_id : String
  pub target_user : String
  pub target_name : String
  pub time_created : String

-- `allTargets.filter(t => t.id == targetId).pop().name`: reading it of `undefined` throws.
abbrev pub popped_name : List TargetName → Settled String
popped_name [] = rejected type_error
popped_name (t ∷ targets) = resolved (last t targets).name

abbrev pub shell_info : SpaceConnection → String → ShellConnectionInfo
shell_info c name = record {
  connection_id = c.id;
  target_user = c.target_user;
  target_name = name;
  time_created = c.time_created;
}

unfoldable pub shell_infos :
    List TargetName → List SpaceConnection → Settled (List ShellConnectionInfo)
shell_infos targets [] = resolved []
shell_infos targets (c ∷ connections) =
    let later = shell_infos targets connections in
    after (popped_name (filter (λ (t : TargetName). t.id == c.target_id) targets))
      (λ name. after later (λ rest. resolved (shell_info c name ∷ rest)))

-- No target is asked for when no connection is open.
abbrev pub infos_of_open :
    Settled (List TargetName)
    → Settled (List TargetName)
    → List SpaceConnection
    → Settled (List ShellConnectionInfo)
infos_of_open ssm_targets bzero_targets [] = resolved []
infos_of_open ssm_targets bzero_targets (c ∷ connections) =
    after ssm_targets (λ ssm. after bzero_targets (λ bz. shell_infos (ssm ++ bz) (c ∷ connections)))

abbrev pub infos_of_space :
    Settled (List TargetName)
    → Settled (List TargetName)
    → Option (List SpaceConnection)
    → Settled (List ShellConnectionInfo)
infos_of_space ssm_targets bzero_targets none = resolved []
infos_of_space ssm_targets bzero_targets (some connections) =
    infos_of_open ssm_targets bzero_targets
      (filter (λ (c : SpaceConnection). c.is_open) connections)

-- `cli_space` is how `getCliSpace` settles, with the connections of the space if there is one.
unfoldable pub list_open_shell_connections :
    Settled (Option (List SpaceConnection))
    → Settled (List TargetName)
    → Settled (List TargetName)
    → Settled (List ShellConnectionInfo)
list_open_shell_connections cli_space ssm_targets bzero_targets =
    after cli_space (infos_of_space ssm_targets bzero_targets)

-- A connection that a daemon carries, as the backend lists it.
pub record DaemonConnection : Type 0 where
  pub id : String
  pub target_name : String
  pub time_created : String
  pub remote_host : String
  pub remote_port : String
  pub target_user : String
  pub target_groups : List String

pub record DbConnectionInfo : Type 0 where
  pub connection_id : String
  pub target_name : String
  pub time_created : String
  pub remote_host : String
  pub target_user : String

-- `RDPConnectionInfo` and `SQLServerConnectionInfo`
pub record TcpConnectionInfo : Type 0 where
  pub connection_id : String
  pub target_name : String
  pub time_created : String
  pub remote_host : String

pub record KubeConnectionInfo : Type 0 where
  pub connection_id : String
  pub target_name : String
  pub time_created : String
  pub target_user : String
  pub target_groups : List String

abbrev pub host_and_port : DaemonConnection → String
host_and_port c = text_append c.remote_host (text_append ":" c.remote_port)

abbrev pub db_info : DaemonConnection → DbConnectionInfo
db_info c = record {
  connection_id = c.id;
  target_name = c.target_name;
  time_created = c.time_created;
  remote_host = host_and_port c;
  target_user = c.target_user;
}

abbrev pub tcp_info : DaemonConnection → TcpConnectionInfo
tcp_info c = record {
  connection_id = c.id;
  target_name = c.target_name;
  time_created = c.time_created;
  remote_host = host_and_port c;
}

abbrev pub kube_info : DaemonConnection → KubeConnectionInfo
kube_info c = record {
  connection_id = c.id;
  target_name = c.target_name;
  time_created = c.time_created;
  target_user = c.target_user;
  target_groups = c.target_groups;
}

abbrev pub listed {ℓ} : {A : Type ℓ} → (DaemonConnection → A) → List DaemonConnection → List A
listed info [] = []
listed info (c ∷ connections) = map info (c ∷ connections)

unfoldable pub list_open_db_connections :
    Settled (List DaemonConnection) → Settled (List DbConnectionInfo)
list_open_db_connections opened =
    after opened (λ connections. resolved (listed db_info connections))

unfoldable pub list_open_rdp_connections :
    Settled (List DaemonConnection) → Settled (List TcpConnectionInfo)
list_open_rdp_connections opened =
    after opened (λ connections. resolved (listed tcp_info connections))

unfoldable pub list_open_sql_server_connections :
    Settled (List DaemonConnection) → Settled (List TcpConnectionInfo)
list_open_sql_server_connections opened =
    after opened (λ connections. resolved (listed tcp_info connections))

unfoldable pub list_open_kube_connections :
    Settled (List DaemonConnection) → Settled (List KubeConnectionInfo)
list_open_kube_connections opened =
    after opened (λ connections. resolved (listed kube_info connections))

-- When the shell connections are listed, there is one entry for each, in order.
pub shell_infos-Resolves :
    (targets : List TargetName) (connections : List SpaceConnection)
    → Resolves
        (λ infos.
          map (λ (i : ShellConnectionInfo). i.connection_id) infos
          ≡ map (λ (c : SpaceConnection). c.id) connections)
        (shell_infos targets connections)
unfolding shell_infos
shell_infos-Resolves targets [] = refl
shell_infos-Resolves targets (c ∷ connections) =
    Resolves-after (λ name. Unit) _
      (popped_name (filter (λ (t : TargetName). t.id == c.target_id) targets)) _
      (Resolves-trivial (popped_name (filter (λ (t : TargetName). t.id == c.target_id) targets)))
      (λ name e u.
        Resolves-after _ _ (shell_infos targets connections) _
          (shell_infos-Resolves targets connections) (λ rest f h. ap (λ l. c.id ∷ l) h))
