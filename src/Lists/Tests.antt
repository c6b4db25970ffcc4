-- ===== src/Lists/Tests.antt =====
-- Two connections of which one cannot be closed, and a database that a policy allows.
use zli.Prelude.{Bool}
use zli.Prelude.{
  ◌⊎◌, inl, inr, string_key, ◌==◌, true, false, none, some, [], ◌∷◌, map, All, ◌≡◌, ◌↔◌, refl,
  if◌then◌else◌,
}
use zli.Effect.{resolved, rejected, returned, exited, type_error}
use zli.Lists.Targets.{
  linux, windows, TargetKind, db, ListedTarget, PolicyAnswer, ListBackend, list_targets,
}
use zli.Lists.Targets.Permitted.{Resolves, IsPermitted, list_targets-Resolves}
use zli.Lists.Closing.{
  rdp, close_requested, Closing, ClosingBackend, close_connections, close_connection_handler,
}
use zli.Lists.Closing.Laws.{
  AreResolved, all_events, closings, close_connections_lem, close_connection_handler_lem,
}

abbrev closing : ClosingBackend
closing = record {
  list_open_connections = λ kind. resolved ("c1" ∷ "c2" ∷ []);
  close_connection = λ id. if id == "c1" then rejected type_error else resolved tt;
  list_spaces = resolved [];
  close_space = λ id. resolved tt;
  create_space = λ name. resolved tt;
  message_of = λ failure. none;
}

close_connections_lem_example :
    ((close_connections closing rdp).0 ≡ map close_requested ("c1" ∷ "c2" ∷ []))
    × ((close_connections closing rdp).1 ≡ returned tt
        ↔ AreResolved (map closing.close_connection ("c1" ∷ "c2" ∷ [])))
close_connections_lem_example = close_connections_lem closing rdp ("c1" ∷ "c2" ∷ []) refl

close_connection_handler_lem_example :
    ((close_connection_handler closing (some none) "").0 ≡ all_events (closings closing))
    × ((close_connection_handler closing (some none) "").1 ≡ exited 0
        ↔ All (λ (run : Closing (Unit {0})). run.1 ≡ returned tt) (closings closing))
close_connection_handler_lem_example = close_connection_handler_lem closing ""

abbrev orders : ListedTarget
orders = record {
  id = "d1";
  name = "orders";
  environment_id = "e1";
  agent_version = "7.0.0";
  region = "eu";
  allowed_users = none;
  is_linux = false;
  split_cert = true;
}

abbrev allowed_answer : PolicyAnswer
allowed_answer = record { allowed = true; allowed_users = "reader" ∷ [] }

abbrev kind_of : Bool → TargetKind
kind_of true = linux
kind_of false = windows

kind_of-cases : (is_linux : Bool) → (kind_of is_linux ≡ linux) ⊎ (kind_of is_linux ≡ windows)
kind_of-cases true = inl refl
kind_of-cases false = inr refl

abbrev backend : ListBackend
backend = record {
  list_ssm_targets = resolved [];
  list_dynamic_access_configs = resolved [];
  list_bzero_targets = resolved [];
  list_kube_clusters = resolved [];
  list_db_targets = resolved (orders ∷ []);
  list_web_targets = rejected type_error;
  target_connect_policy_query = λ kind ids. resolved [];
  kube_policy_query = λ ids. resolved [];
  proxy_policy_query = λ kind ids. resolved (("d1", allowed_answer) ∷ []);
  to_target_type = kind_of;
}

list_targets-Resolves_example :
    Resolves (All (IsPermitted backend)) (list_targets backend (db ∷ []) (some "a@b.c"))
list_targets-Resolves_example =
    list_targets-Resolves backend (db ∷ []) (some "a@b.c") refl kind_of-cases
