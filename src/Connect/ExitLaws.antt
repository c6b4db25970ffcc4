-- ===== src/Connect/ExitLaws.antt =====
-- The two functions that read the exit code share the codes out between them.
use zli.Prelude.{
  ℕ, nat_key, ◌==◌, ◌+◌, false, Option, none, some, ◌≡◌, length, arith, if◌then◌else◌,
}
use zli.Connect.ExitCodes.{on_nonzero, on_close, handle_exit_code, cancelled_by_user}

abbrev pub count {ℓ} : {A : Type ℓ} → Option A → ℕ
count none = 0
count (some a) = 1

-- Whatever the exit code other than 0, the user gets one message: either the listener logs it, or
-- `handleExitCode` gives it for the code that the listener passes on. That code is the one of the
-- process, except that a cancelled connection counts as 0.
reported_once :
    (code : ℕ)
    → (code == 0) ≡ false
    → (length (on_close (some code)).0 + count (handle_exit_code (on_close (some code)).1) ≡ 1)
      × ((on_close (some code)).1 ≡ (if code == cancelled_by_user then some 0 else some code))
unfolding on_close on_nonzero handle_exit_code
reported_once code h = ground arith
