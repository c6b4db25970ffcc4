-- ===== src/Process.antt =====
-- services/process-manager/process-manager.service.ts over the answers of the operating system and of the
-- control server of a daemon, and the interface of the daemon service that it fills.
pub mod Laws
mod Tests
use zli.Prelude.{
  ℕ, zero, suc, ◌+◌, ◌-◌, ◌/◌, Bool, true, false, Option, List, [], ◌∷◌, ◌++◌, if◌then◌else◌,
}
use zli.Effect.{
  Failure, Outcome, returned, exited, threw, error, Run, pure, throw, emit, Settled, resolved,
  rejected, ◌>>=◌, ◌>>◌,
}
use zli.Daemon.Service.{
  ProcessManager, KillProcessResultType, killed_gracefully, killed_forcefully, no_longer_exists,
}

-- What `process.kill` does: it delivers the signal, or throws with a code.
pub data Signal : Type 0 where
  delivered no_such_process not_permitted : Signal
  failed : Failure → Signal

-- How the shutdown request fails: a code that the source names, or another error.
pub data ShutdownError : Type 0 where
  connection_refused got_request_error : ShutdownError
  unknown : Failure → ShutdownError

pub data Shutdown : Type 0 where
  accepted : Shutdown
  refused : ShutdownError → Shutdown

-- `probe n pid` is the answer to the signal 0 at the n-th check; the first is the check 0.
pub record System : Type 0 where
  pub is_windows : Bool
  pub put_shutdown : Option ℕ → Shutdown
  pub probe : ℕ → ℕ → Signal
  pub kill_group : ℕ → Signal

pub data ProcessEvent : Type 0 where
  shutdown_requested : Option ℕ → ProcessEvent
  kill_sent : ℕ → ProcessEvent

abbrev pub still_running : Signal → Bool
still_running delivered = true
still_running not_permitted = true
still_running _ = false

-- `isProcessRunning`, at the n-th check
unfoldable pub is_process_running : System → ℕ → ℕ → Bool
is_process_running s n pid = still_running (s.probe n pid)

abbrev pub killed : Signal → Run ProcessEvent Bool
killed delivered = pure true
killed no_such_process = pure false
killed not_permitted = throw (error "EPERM")
killed (failed failure) = throw failure

-- `taskkill` is not asked for its result.
unfoldable pub kill_process : System → ℕ → Run ProcessEvent Bool
kill_process s pid = do
  emit (kill_sent pid)
  if s.is_windows then pure true else killed (s.kill_group pid)

-- The polling loop: `n` checks are left before the timer ends, and the next is the check `i`.
-- `false` is the rejection with the name `TIMEOUT`.
unfoldable pub poll : System → ℕ → ℕ → ℕ → Bool
poll s pid i zero = false
poll s pid i (suc n) =
    let rest = poll s pid (suc i) n in if is_process_running s i pid then rest else true

-- A check at once, and one every 500 ms that comes before the timeout.
unfoldable pub checks_before : ℕ → ℕ
checks_before timeout = suc ((timeout - 1) / 500)

unfoldable pub wait_for_process : System → ℕ → ℕ → Bool
wait_for_process s pid timeout = poll s pid 0 (checks_before timeout)

unfoldable pub force_kill : System → ℕ → Run ProcessEvent KillProcessResultType
force_kill s pid = do
  was_killed ← kill_process s pid
  if was_killed then pure killed_forcefully else pure no_longer_exists

unfoldable pub try_shut_down_process :
    System → Option ℕ → ℕ → ℕ → Run ProcessEvent KillProcessResultType
try_shut_down_process s control_port pid timeout = do
  emit (shutdown_requested control_port)
  elim (s.put_shutdown control_port) [
    | accepted ↦ if wait_for_process s pid timeout then pure killed_gracefully else force_kill s pid
    | refused connection_refused ↦ force_kill s pid
    | refused got_request_error ↦ force_kill s pid
    | refused (unknown failure) ↦ throw failure
  ]

-- No method of the process manager leaves the process.
abbrev pub settled {ℓ} : {A : Type ℓ} → Outcome A → Settled A
settled (returned a) = resolved a
settled (exited code) = rejected (error "exit")
settled (threw failure) = rejected failure

-- The daemon service is given the process manager with the default timeout.
unfoldable pub process_manager : System → ProcessManager
process_manager s = record {
  is_process_running = is_process_running s 0;
  try_shut_down_process = λ port pid. settled (try_shut_down_process s port pid 15000).1;
}
