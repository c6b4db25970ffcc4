-- ===== src/Connect/ExitCodes.antt =====
-- utils/daemon-exit-codes.ts, and `waitForDaemonProcessExit` and `handleExitCode` of
-- utils/daemon-utils.ts: what the user is told when a daemon process ends.
use zli.Prelude.{ℕ, nat_key, ◌==◌, ◌||◌, Option, none, some, List, [], ◌∷◌, if◌then◌else◌}

abbrev pub daemon_panic : ℕ
daemon_panic = 2

abbrev pub cancelled_by_user : ℕ
cancelled_by_user = 3

abbrev pub user_not_found : ℕ
user_not_found = 4

abbrev pub zli_config_error : ℕ
zli_config_error = 5

abbrev pub service_account_not_configured : ℕ
service_account_not_configured = 6

abbrev pub policy_edited_disconnect : ℕ
policy_edited_disconnect = 7

abbrev pub policy_deleted_disconnect : ℕ
policy_deleted_disconnect = 8

abbrev pub idle_timeout : ℕ
idle_timeout = 9

abbrev pub connection_refused : ℕ
connection_refused = 10

abbrev pub connection_failed : ℕ
connection_failed = 11

abbrev pub db_no_tls : ℕ
db_no_tls = 12

abbrev pub client_cert_cosign_error : ℕ
client_cert_cosign_error = 13

abbrev pub pwdb_missing_key : ℕ
pwdb_missing_key = 14

abbrev pub pwdb_unknown_authority : ℕ
pwdb_unknown_authority = 15

abbrev pub server_cert_expired : ℕ
server_cert_expired = 16

abbrev pub incorrect_server_name : ℕ
incorrect_server_name = 17

abbrev pub bzcert_id_token_error : ℕ
bzcert_id_token_error = 18

abbrev pub failed_to_start_126 : ℕ
failed_to_start_126 = 126

abbrev pub failed_to_start_127 : ℕ
failed_to_start_127 = 127

-- The texts that `waitForDaemonProcessExit` logs, in the order of its cases.
pub data CloseMessage : Type 0 where
  invalid_tokens cancelled account_not_configured cannot_parse_config refused not_established :
      CloseMessage
  database_without_tls cosign_failed missing_key unknown_authority certificate_expired :
      CloseMessage
  wrong_server_name terminated_unexpectedly failed_to_start : CloseMessage
  closed_with : ℕ → CloseMessage

-- The `switch` on a code other than 0: what is logged, and the code that is passed on.
unfoldable pub on_nonzero : ℕ → List CloseMessage × Option ℕ
on_nonzero code =
    if code == bzcert_id_token_error
    then (invalid_tokens ∷ [], some code)
    else if code == cancelled_by_user
    then (cancelled ∷ [], some 0)
    else if code == service_account_not_configured
    then (account_not_configured ∷ [], some code)
    else if code == zli_config_error
    then (cannot_parse_config ∷ [], some code)
    else if code == user_not_found
        || (code == policy_edited_disconnect
            || (code == policy_deleted_disconnect || code == idle_timeout))
    then ([], some code)
    else if code == connection_refused
    then (refused ∷ [], some code)
    else if code == connection_failed
    then (not_established ∷ [], some code)
    else if code == db_no_tls
    then (database_without_tls ∷ [], some code)
    else if code == client_cert_cosign_error
    then (cosign_failed ∷ [], some code)
    else if code == pwdb_missing_key
    then (missing_key ∷ [], some code)
    else if code == pwdb_unknown_authority
    then (unknown_authority ∷ [], some code)
    else if code == server_cert_expired
    then (certificate_expired ∷ [], some code)
    else if code == incorrect_server_name
    then (wrong_server_name ∷ [], some code)
    else if code == daemon_panic
    then (terminated_unexpectedly ∷ [], some code)
    else if code == failed_to_start_126 || code == failed_to_start_127
    then (failed_to_start ∷ [], some code)
    else (closed_with code ∷ [], some code)

-- The listener on `close`; the code is `null` if a signal ended the process.
unfoldable pub on_close : Option ℕ → List CloseMessage × Option ℕ
on_close none = (failed_to_start ∷ [], none)
on_close (some code) = if code == 0 then ([], some 0) else on_nonzero code

-- The texts that `handleExitCode` returns.
pub data ConnectionMessage : Type 0 where
  user_does_not_exist policy_edited policy_deleted idle_timeout_reached : ConnectionMessage

-- `none` is the empty text.
unfoldable pub handle_exit_code : Option ℕ → Option ConnectionMessage
handle_exit_code none = none
handle_exit_code (some code) =
    if code == user_not_found
    then some user_does_not_exist
    else if code == policy_edited_disconnect
    then some policy_edited
    else if code == policy_deleted_disconnect
    then some policy_deleted
    else if code == idle_timeout
    then some idle_timeout_reached
    else none
