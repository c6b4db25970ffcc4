-- ===== src/Quickstart/Tests.antt =====
-- A configuration of two hosts, the second without a user, and a quickstart that registers the first.
use zli.Prelude.{
  String, string_key, ◌==◌, true, false, Option, none, some, List, [], ◌∷◌, filter, All, ◌≡◌, refl,
  arith, if◌then◌else◌,
}
use zli.Dict.Defs.{get}
use zli.Effect.{returned, exited, Settled, resolved, rejected, type_error}
use zli.Quickstart.Hosts.{
  SshHostConfig, SshConfigHostBlock, ValidSshHost, standard_port, is_param, parse_ssh_hosts,
  get_ssh_hosts_with_valid_ssh_keys,
}
use zli.Quickstart.Handler.{
  quickstart_handler, validate_quickstart_args, welcome_back, first_login, post_success_login,
  read_and_onboard, onboard_hosts, choose_hosts, use_selection, confirm_hosts, set_up_environments,
  register_hosts, finish_with, fulfilled, exit_and_save_transcript,
}
use zli.Quickstart.Hosts.{
  parse_ssh_hosts, add_blocks, add_block, check_host, parse_host, get_ssh_host_config_value,
  is_param, resolve_home, no_hosts, get_ssh_hosts_with_valid_ssh_keys, readable_hosts,
}
use zli.Quickstart.Keys.{prompt_convert_hosts, choose_host, ssh_config}
use zli.Quickstart.Provision.{
  create_env_for_unique_usernames, create_policy_for_unique_usernames, for_groups, register_group,
  connect_group, environment_of, policy_of, quickstart_env_name, quickstart_policy_name,
  policy_request, environment_request,
}
use zli.Quickstart.Grouping.{group_from}
use zli.Effect.{exited}
use zli.Quickstart.Handler.Laws.{Some, IsCongratulation, quickstart_handler-Some}
use zli.Dict.Defs.{set}
use zli.Quickstart.Provision.Laws.{IsRound}
use zli.Quickstart.Hosts.Laws.{
  first_blocks, host_blocks, complete_hosts, incomplete_hosts, parse_ssh_hosts_lem,
}
use zli.Quickstart.Types.{
  ValidSshHostAndConfig, RegistrableSshHost, BzeroAgentSummary, RegisteredSshHost,
}
use zli.Quickstart.Grouping.{of_key}
use zli.Quickstart.Provision.{
  ProvisionBackend, host_username, register_group, connect_group, create_env_for_unique_usernames,
  create_policy_for_unique_usernames,
}
use zli.Quickstart.Provision.Laws.{given, event_username, create_env_for_unique_usernames_lem}
use zli.Quickstart.Keys.{KeySystem, KeyParse, key_parsed, key_encrypted, prompt_convert_hosts}
use zli.Quickstart.Keys.Laws.{Returns, IsUsable, IsValidating, prompt_convert_hosts-Returns}
use zli.Quickstart.Handler.{QuickstartSystem}

abbrev same : String → String
same s = s

abbrev line : String → String → SshHostConfig
line name value = record { param = some name; value = value }

abbrev block : String → List SshHostConfig → SshConfigHostBlock
block name lines = record { param = some "host"; value = name; config = lines }

abbrev blocks : List SshConfigHostBlock
blocks =
    block "web" (line "HostName" "10.0.0.1" ∷ line "User" "ec2" ∷ line "IdentityFile" "/key" ∷ [])
    ∷ block "db" (line "HostName" "10.0.0.2" ∷ line "IdentityFile" "/key" ∷ [])
    ∷ block "*" []
    ∷ block "web" []
    ∷ []

parse_ssh_hosts_lem_example :
    ((parse_ssh_hosts same same blocks).valid_hosts
      ≡ complete_hosts same same (first_blocks (host_blocks same same blocks)))
    × ((parse_ssh_hosts same same blocks).invalid_ssh_hosts
        ≡ incomplete_hosts same same (first_blocks (host_blocks same same blocks)))
parse_ssh_hosts_lem_example = parse_ssh_hosts_lem same same blocks

abbrev web : ValidSshHost
web = record {
  name = "web";
  host_ip = "10.0.0.1";
  port = standard_port;
  username = "ec2";
  identity_file = "/key";
}

abbrev read_key : String → Settled String
read_key path = if path == "/key" then resolved "KEY" else rejected type_error

abbrev backend : ProvisionBackend
backend = record {
  list_environments = λ username. resolved [];
  create_environment = λ request. resolved "env";
  list_policy_names = λ username. resolved [];
  add_policy = λ request. resolved tt;
  my_id = "me";
}

abbrev configured : ValidSshHostAndConfig
configured = record {
  ssh_host = web;
  config = record {
    host = "10.0.0.1";
    username = "ec2";
    identity = "/key";
    port = standard_port;
    passphrase = none;
  };
}

create_env_for_unique_usernames_lem_example :
    ((create_env_for_unique_usernames same backend (configured ∷ [])).1
      ≡ returned (given (create_env_for_unique_usernames same backend (configured ∷ []))))
    × IsRound backend "ec2"
        (of_key (host_username same) "ec2" (configured ∷ []))
        (filter
          (λ (r : RegistrableSshHost). host_username same r.host == "ec2")
          (given (create_env_for_unique_usernames same backend (configured ∷ []))))
        (filter
          (λ e. event_username e == "ec2")
          (create_env_for_unique_usernames same backend (configured ∷ [])).0)
create_env_for_unique_usernames_lem_example =
    create_env_for_unique_usernames_lem same backend "ec2" (configured ∷ [])

abbrev agent : BzeroAgentSummary
agent = record { id = "t1"; name = "web"; environment_id = "env"; is_online = true }

abbrev target : RegisteredSshHost
target = record { target_summary = agent; ssh_host = web }

abbrev parse_key : String → Option String → KeyParse
parse_key contents none = key_encrypted
parse_key contents (some passphrase) = if passphrase == "pass" then key_parsed else key_encrypted

abbrev key_answers : KeySystem
key_answers = record {
  read_file = read_key;
  parse_private_key = parse_key;
  password_prompt = λ validate name. if validate "pass" then some "pass" else none;
  skip_prompt = λ name. some true;
  on_exit = λ code. exited code;
}

key_answers-IsValidating : IsValidating key_answers
key_answers-IsValidating validate name answer e = ground arith

prompt_convert_hosts-Returns_example :
    Returns key_answers (All (IsUsable key_answers)) (prompt_convert_hosts key_answers (web ∷ [])).1
prompt_convert_hosts-Returns_example =
    prompt_convert_hosts-Returns key_answers (web ∷ []) key_answers-IsValidating (1, refl)

abbrev session : QuickstartSystem
session = record {
  is_windows = false;
  ssh_config_file = some "/config";
  default_ssh_config_file = "/default";
  exists = λ path. true;
  token_set = rejected type_error;
  is_user = true;
  user_summary = rejected type_error;
  login_user = resolved true;
  is_user_after_login = true;
  user_after_login = resolved (record { is_admin = true });
  tracked = resolved tt;
  read_file = λ path. resolved "KEY";
  parse = λ text. blocks;
  select_hosts = λ names. some (λ name. true);
  parse_private_key = λ contents passphrase. key_parsed;
  password_prompt = λ validate name. none;
  skip_prompt = λ name. none;
  ready = some true;
  add_host = λ host. resolved target;
  save_transcript = some false;
}

session_ends : (quickstart_handler same same backend session).1 ≡ exited 0
unfolding quickstart_handler validate_quickstart_args welcome_back first_login post_success_login
    read_and_onboard onboard_hosts choose_hosts use_selection confirm_hosts set_up_environments
    register_hosts finish_with fulfilled exit_and_save_transcript parse_ssh_hosts add_blocks
    add_block check_host parse_host get_ssh_host_config_value is_param resolve_home no_hosts
    get_ssh_hosts_with_valid_ssh_keys readable_hosts prompt_convert_hosts choose_host ssh_config
    create_env_for_unique_usernames create_policy_for_unique_usernames for_groups register_group
    connect_group environment_of policy_of quickstart_env_name quickstart_policy_name policy_request
    environment_request group_from get set
session_ends = refl

quickstart_handler-Some_example :
    Some (IsCongratulation session) (quickstart_handler same same backend session).0
quickstart_handler-Some_example = quickstart_handler-Some same same backend session session_ends
