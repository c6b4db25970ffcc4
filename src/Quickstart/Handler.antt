-- ===== src/Quickstart/Handler.antt =====
-- handlers/quickstart/quickstart-handler.ts, less what it writes to the console.
pub mod Laws
use zli.Prelude.{
  String, ℕ, Bool, true, false, not, Option, none, some, List, [], ◌∷◌, ◌++◌, map, filter,
  string_key, if◌then◌else◌,
}
use zli.Dict.Defs.{Dict, get, keys}
use zli.Effect.{
  Failure, error, Outcome, returned, exited, threw, Run, pure, throw, or_else, emit, clean_exit,
  Settled, resolved, rejected, ◌>>=◌, ◌>>◌,
}
use zli.Quickstart.Hosts.{
  SshConfigHostBlock, ValidSshHost, parse_ssh_hosts, get_ssh_hosts_with_valid_ssh_keys,
}
use zli.Quickstart.Types.{ValidSshHostAndConfig, RegistrableSshHost, RegisteredSshHost}
use zli.Quickstart.Keys.{KeyEvent, KeyParse, KeySystem, prompt_convert_hosts}
use zli.Quickstart.Provision.{
  ProvisionEvent, ProvisionBackend, create_env_for_unique_usernames,
  create_policy_for_unique_usernames,
}

-- What the handler reads of the summary of a user.
pub record AdminSummary : Type 0 where
  pub is_admin : Bool

pub data QuickstartEvent : Type 0 where
  admin_required login_started : QuickstartEvent
  provisioned : ProvisionEvent → QuickstartEvent
  key_asked : KeyEvent → QuickstartEvent
  -- The congratulation, with the targets that were added.
  congratulated : List RegisteredSshHost → QuickstartEvent
  footer_printed transcript_saved : QuickstartEvent

-- What the handler asks of the system, of the services and of the user. A prompt that is cancelled
-- has no answer. `select_hosts` is the selection among the names that are offered.
pub record QuickstartSystem : Type 0 where
  pub is_windows : Bool
  pub ssh_config_file : Option String
  pub default_ssh_config_file : String
  pub exists : String → Bool
  -- The session that is there: its tokens, whether the subject is a user, and the user.
  pub token_set : Settled (Unit {0})
  pub is_user : Bool
  pub user_summary : Settled AdminSummary
  -- The session after a login.
  pub login_user : Settled Bool
  pub is_user_after_login : Bool
  pub user_after_login : Settled AdminSummary
  pub tracked : Settled (Unit {0})
  pub read_file : String → Settled String
  pub parse : String → List SshConfigHostBlock
  pub select_hosts : List String → Option (String → Bool)
  pub parse_private_key : String → Option String → KeyParse
  pub password_prompt : (String → Bool) → String → Option String
  pub skip_prompt : String → Option Bool
  pub ready : Option Bool
  pub add_host : RegistrableSshHost → Settled RegisteredSshHost
  pub save_transcript : Option Bool

abbrev pub Quickstart : Type 0 → Type 0
Quickstart A = Run QuickstartEvent A

abbrev pub await : {A : Type 0} → Settled A → Quickstart A
await (resolved a) = pure a
await (rejected failure) = throw failure

abbrev pub provisioning : {A : Type 0} → Run ProvisionEvent A → Quickstart A
provisioning (es, r) = (map provisioned es, r)

abbrev pub asking : {A : Type 0} → Run KeyEvent A → Quickstart A
asking (es, r) = (map key_asked es, r)

unfoldable pub post_success_login : AdminSummary → Quickstart (Unit {0})
post_success_login user = if user.is_admin then pure tt else (admin_required ∷ [], exited 1)

abbrev pub existing_file : (String → Bool) → String → Quickstart String
existing_file exists path =
    if exists path then pure path else throw (error "Cannot read/access file")

-- `resolvedHosts.get(name)` for each name; the names are keys of the map.
abbrev pub hosts_named : List String → Dict String ValidSshHost → List ValidSshHost
hosts_named [] hosts = []
hosts_named (name ∷ names) hosts = elim (get name hosts) [
  | none ↦ hosts_named names hosts
  | some host ↦ host ∷ hosts_named names hosts
]

-- `reduce` over the results of `Promise.allSettled`
unfoldable pub fulfilled : List (Settled RegisteredSshHost) → List RegisteredSshHost
fulfilled [] = []
fulfilled (resolved target ∷ results) = target ∷ fulfilled results
fulfilled (rejected failure ∷ results) = fulfilled results

module _ (s : QuickstartSystem) where
  abbrev pub saved : ℕ → Option Bool → Quickstart (Unit {0})
  saved code none = do emit footer_printed; clean_exit 1
  saved code (some true) = do emit transcript_saved; emit footer_printed; clean_exit code
  saved code (some false) = do emit footer_printed; clean_exit code

  unfoldable pub exit_and_save_transcript : ℕ → Quickstart (Unit {0})
  exit_and_save_transcript code = saved code s.save_transcript

  -- The answer of a prompt whose cancellation is `onCancelPrompt`.
  abbrev pub answered : {A : Type 0} → A → Option A → Quickstart A
  answered nothing none = do exit_and_save_transcript 1; pure nothing
  answered nothing (some a) = pure a

  -- `if (list.length == 0) await exitAndSaveTranscript(1, …)`
  abbrev pub unless_empty : {A : Type 0} → List A → Quickstart (Unit {0})
  unless_empty [] = exit_and_save_transcript 1
  unless_empty (a ∷ rest) = pure tt

  abbrev pub ssh_config_path : Option String → Quickstart String
  ssh_config_path none = existing_file s.exists s.default_ssh_config_file
  ssh_config_path (some path) = existing_file s.exists path

  unfoldable pub validate_quickstart_args : Quickstart String
  validate_quickstart_args =
      if s.is_windows
      then throw (error "Quickstart is not supported on Windows machines")
      else ssh_config_path s.ssh_config_file

  abbrev pub must_be_user : Bool → Quickstart (Unit {0})
  must_be_user true = pure tt
  must_be_user false = throw (error "Cannot continue as subject")

  -- The `try` block of step 1.
  unfoldable pub welcome_back : Quickstart (Unit {0})
  welcome_back = do
    await s.token_set
    must_be_user s.is_user
    user ← await s.user_summary
    post_success_login user

  abbrev pub after_login : Bool → Quickstart (Unit {0})
  after_login false = clean_exit 1
  after_login true = do
    must_be_user s.is_user_after_login
    user ← await s.user_after_login
    post_success_login user

  -- Its `catch` block.
  unfoldable pub first_login : Quickstart (Unit {0})
  first_login = do emit login_started; login_result ← await s.login_user; after_login login_result

  -- What `promptConvertValidSSHHostsToSSHConfigs` is given; it leaves by `exitAndSaveTranscript`.
  abbrev pub key_system : KeySystem
  key_system = record {
    read_file = s.read_file;
    parse_private_key = s.parse_private_key;
    password_prompt = s.password_prompt;
    skip_prompt = s.skip_prompt;
    on_exit = λ code. (exit_and_save_transcript code).1;
  }

module _ (to_lower_case join_home : String → String) (b : ProvisionBackend)
    (s : QuickstartSystem) where
  -- Step 3: the confirmation, and the environments for the hosts.
  unfoldable pub set_up_environments :
      List ValidSshHostAndConfig → Bool → Quickstart (List RegistrableSshHost)
  set_up_environments configs is_ready = do
    if is_ready then pure tt else exit_and_save_transcript s 1
    registrable ← provisioning (create_env_for_unique_usernames to_lower_case b configs)
    unless_empty s registrable
    pure registrable

  unfoldable pub confirm_hosts : List ValidSshHostAndConfig → Quickstart (List RegistrableSshHost)
  confirm_hosts configs = do
    unless_empty s configs
    is_ready ← answered s false s.ready
    set_up_environments configs is_ready

  -- The selected hosts, with their passphrases.
  unfoldable pub use_selection :
      Dict String ValidSshHost → (String → Bool) → Quickstart (List RegistrableSshHost)
  use_selection valid_hosts selects = do
    let names = filter selects (keys valid_hosts)
    unless_empty s names
    configs ← asking (prompt_convert_hosts (key_system s) (hosts_named names valid_hosts))
    confirm_hosts configs

  -- Step 2: the selection among the valid hosts.
  unfoldable pub choose_hosts : Dict String ValidSshHost → Quickstart (List RegistrableSshHost)
  choose_hosts valid_hosts = do
    unless_empty s valid_hosts
    selects ← answered s (λ name. false) (s.select_hosts (keys valid_hosts))
    use_selection valid_hosts selects

  -- What follows the registration of the hosts, with the targets that were added.
  unfoldable pub finish_with : List RegisteredSshHost → Quickstart (Unit {0})
  finish_with targets = do
    unless_empty s targets
    connectable ← provisioning (create_policy_for_unique_usernames to_lower_case b targets)
    emit (congratulated targets)
    exit_and_save_transcript s 0

  unfoldable pub register_hosts : List RegistrableSshHost → Quickstart (Unit {0})
  register_hosts registrable = finish_with (fulfilled (map s.add_host registrable))

  -- What follows the login.
  unfoldable pub onboard_hosts : String → Quickstart (Unit {0})
  onboard_hosts ssh_config = do
    registrable ← choose_hosts (
        get_ssh_hosts_with_valid_ssh_keys s.read_file
          (parse_ssh_hosts to_lower_case join_home (s.parse ssh_config)).valid_hosts)
    register_hosts registrable

  unfoldable pub read_and_onboard : String → Quickstart (Unit {0})
  read_and_onboard path = do
    await s.tracked
    ssh_config ← await (s.read_file path)
    onboard_hosts ssh_config

  unfoldable pub quickstart_handler : Quickstart (Unit {0})
  quickstart_handler = do
    path ← validate_quickstart_args s
    or_else (welcome_back s) (λ failure. first_login s)
    read_and_onboard path
