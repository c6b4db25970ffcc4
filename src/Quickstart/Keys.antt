-- ===== src/Quickstart/Keys.antt =====
-- promptConvertValidSSHHostsToSSHConfigs and handleEncryptedIdentityFile of
-- services/quickstart/quickstart.service.ts.
pub mod Laws
pub mod Leaving
use zli.Prelude.{
  ℕ, String, string_key, ◌==◌, Bool, true, false, not, ◌&&◌, Option, none, some, List, [], ◌∷◌,
  if◌then◌else◌,
}
use zli.Effect.{Run, Outcome, pure, emit, Settled, resolved, rejected, ◌>>=◌, ◌>>◌}
use zli.Quickstart.Hosts.{ValidSshHost}
use zli.Quickstart.Types.{SshConfig, ValidSshHostAndConfig}

-- How `parsePrivateKey` of the package sshpk ends: it returns, throws `KeyEncryptedError`, or throws
-- another error.
pub data KeyParse : Type 0 where
  key_parsed key_encrypted key_unreadable : KeyParse

pub data KeyEvent : Type 0 where
  encrypted skipping : (host_name : String) → KeyEvent
  passphrase_cancelled skip_cancelled : KeyEvent
  cancelled_exiting : KeyEvent
  on_exit_called : (exit_code : ℕ) → KeyEvent

-- What the service asks of the system, of the package sshpk and of the user. `password_prompt` is the
-- prompt with a validation function for a host: the answer, or nothing when it is cancelled.
-- `skip_prompt` is the answer of the toggle that asks whether to skip a host. `on_exit` is how the
-- caller's function for leaving ends.
pub record KeySystem : Type 0 where
  pub read_file : String → Settled String
  pub parse_private_key : String → Option String → KeyParse
  pub password_prompt : (String → Bool) → String → Option String
  pub skip_prompt : String → Option Bool
  pub on_exit : ℕ → Outcome (Unit {0})

abbrev pub is_parsed : KeyParse → Bool
is_parsed key_parsed = true
is_parsed key_encrypted = false
is_parsed key_unreadable = false

-- What is done with a host: it is left out, or used with the passphrase that was entered, if any.
pub data HostChoice : Type 0 where
  left_out : HostChoice
  used : (passphrase : Option String) → HostChoice

unfoldable pub ssh_config : ValidSshHost → Option String → ValidSshHostAndConfig
ssh_config host passphrase = record {
  ssh_host = host;
  config = record {
    host = host.host_ip;
    username = host.username;
    identity = host.identity_file;
    port = host.port;
    passphrase = passphrase;
  };
}

abbrev pub with_choice :
    ValidSshHost → HostChoice → List ValidSshHostAndConfig → List ValidSshHostAndConfig
with_choice host left_out configs = configs
with_choice host (used passphrase) configs = ssh_config host passphrase ∷ configs

module _ (s : KeySystem) where
  -- `onValidate` of `handleEncryptedIdentityFile`
  unfoldable pub on_validate : String → String → Bool
  on_validate contents value =
      not (value == "") && is_parsed (s.parse_private_key contents (some value))

  abbrev pub entered : Option String → Run KeyEvent (Option String)
  entered none = do emit passphrase_cancelled; pure none
  entered (some answer) = pure (some answer)

  unfoldable pub handle_encrypted_identity_file : String → String → Run KeyEvent (Option String)
  handle_encrypted_identity_file host_name contents =
      entered (s.password_prompt (on_validate contents) host_name)

  -- `promptSkipHostOrExit`, whose answer is only tested: a cancelled prompt has none.
  abbrev pub toggled : Option Bool → Run KeyEvent Bool
  toggled none = do emit skip_cancelled; pure false
  toggled (some answer) = pure answer

  abbrev pub choice_of_skip : String → Bool → Run KeyEvent HostChoice
  choice_of_skip host_name true = do emit (skipping host_name); pure left_out
  choice_of_skip host_name false = do
    emit cancelled_exiting
    (on_exit_called 1 ∷ [], s.on_exit 1)
    pure (used none)

  unfoldable pub skip_or_exit : String → Run KeyEvent HostChoice
  skip_or_exit host_name = do
    should_skip ← toggled (s.skip_prompt host_name)
    choice_of_skip host_name should_skip

  abbrev pub choice_of_passphrase : String → Option String → Run KeyEvent HostChoice
  choice_of_passphrase host_name none = skip_or_exit host_name
  choice_of_passphrase host_name (some passphrase) = pure (used (some passphrase))

  abbrev pub choice_of_parse : String → String → KeyParse → Run KeyEvent HostChoice
  choice_of_parse host_name contents key_encrypted = do
    emit (encrypted host_name)
    response ← handle_encrypted_identity_file host_name contents
    choice_of_passphrase host_name response
  choice_of_parse host_name contents key_parsed = pure (used none)
  choice_of_parse host_name contents key_unreadable = pure (used none)

  -- `if (keyFile) { … }`: an empty file is not parsed.
  abbrev pub choice_of_file : String → Settled String → Run KeyEvent HostChoice
  choice_of_file host_name (rejected failure) = pure (used none)
  choice_of_file host_name (resolved contents) =
      if contents == ""
      then pure (used none)
      else choice_of_parse host_name contents (s.parse_private_key contents none)

  -- One round of the loop.
  unfoldable pub choose_host : ValidSshHost → Run KeyEvent HostChoice
  choose_host host = choice_of_file host.name (s.read_file host.identity_file)

  unfoldable pub prompt_convert_hosts :
      List ValidSshHost → Run KeyEvent (List ValidSshHostAndConfig)
  prompt_convert_hosts [] = pure []
  prompt_convert_hosts (host ∷ hosts) = do
    choice ← choose_host host
    configs ← prompt_convert_hosts hosts
    pure (with_choice host choice configs)
