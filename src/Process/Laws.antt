-- ===== src/Process/Laws.antt =====
-- When a process counts as shut down gracefully, and when it is killed.
use zli.Prelude.{
  ℕ, zero, suc, ◌+◌, ◌<◌, true, false, inl, inr, ◌↔◌, Option, [], ◌∷◌, ◌≡◌, ap, ◌∙◌, arith,
  Bool-cases,
}
use zli.Effect.{returned}
use zli.Daemon.Service.{killed_gracefully}
use zli.Process.{
  System, accepted, shutdown_requested, is_process_running, poll, checks_before, wait_for_process,
  kill_process, force_kill, try_shut_down_process,
}

-- One of `n` checks from `i` on finds the process gone.
abbrev pub IsGone : System → ℕ → ℕ → ℕ → Type 0
IsGone s pid i n = (k : ℕ) × (k < n) × (is_process_running s (i + k) pid ≡ false)

poll_inv : (s : System) (pid i n : ℕ) → poll s pid i n ≡ true → IsGone s pid i n
unfolding poll
poll_inv s pid i zero h = absurd (cc)
poll_inv s pid i (suc n) h = elim (Bool-cases (is_process_running s i pid)) [
  | inl running ↦
      let (k, below, gone) = poll_inv s pid (suc i) n (ground arith) in
      (suc k, omega arith, ap (λ j. is_process_running s j pid) (omega arith) ∙ gone)
  | inr gone ↦ (0, omega arith, ap (λ j. is_process_running s j pid) (omega arith) ∙ gone)
]

at_check :
    (s : System) (pid i j : ℕ) → i ≡ j → is_process_running s i pid ≡ is_process_running s j pid
at_check s pid i j e = ap (λ k. is_process_running s k pid) e

checks_poll : (s : System) (pid i n : ℕ) → IsGone s pid i n → poll s pid i n ≡ true
unfolding poll
checks_poll s pid i zero (k, below, gone) = absurd (omega arith)
checks_poll s pid i (suc n) (zero, below, gone) =
    ground (arith, at_check s pid i (i + 0) (omega arith))
checks_poll s pid i (suc n) (suc k, below, gone) = ground (
  arith,
  checks_poll s pid (suc i) n
      (k, omega arith, at_check s pid (suc i + k) (i + suc k) (omega arith) ∙ gone),
)

not_graceful : (s : System) (pid : ℕ) → ¬ ((force_kill s pid).1 ≡ returned killed_gracefully)
unfolding force_kill kill_process
not_graceful s pid h = ground arith

graceful_inv :
    (s : System) (port : Option ℕ) (pid timeout : ℕ)
    → (try_shut_down_process s port pid timeout).1 ≡ returned killed_gracefully
    → (s.put_shutdown port ≡ accepted)
      × (wait_for_process s pid timeout ≡ true)
      × ((try_shut_down_process s port pid timeout).0 ≡ shutdown_requested port ∷ [])
unfolding try_shut_down_process
graceful_inv s port pid timeout h = ground (arith, not_graceful s pid)

graceful_of :
    (s : System) (port : Option ℕ) (pid timeout : ℕ)
    → s.put_shutdown port ≡ accepted
    → wait_for_process s pid timeout ≡ true
    → try_shut_down_process s port pid timeout
      ≡ (shutdown_requested port ∷ [], returned killed_gracefully)
unfolding try_shut_down_process
graceful_of s port pid timeout h k = ground arith

graceful_checks :
    (s : System) (port : Option ℕ) (pid timeout : ℕ)
    → (try_shut_down_process s port pid timeout).1 ≡ returned killed_gracefully
    → (s.put_shutdown port ≡ accepted) × IsGone s pid 0 (checks_before timeout)
unfolding wait_for_process
graceful_checks s port pid timeout h =
    let (a, w, e) = graceful_inv s port pid timeout h in
    (a, poll_inv s pid 0 (checks_before timeout) w)

checks_graceful :
    (s : System) (port : Option ℕ) (pid timeout : ℕ)
    → s.put_shutdown port ≡ accepted
    → IsGone s pid 0 (checks_before timeout)
    → try_shut_down_process s port pid timeout
      ≡ (shutdown_requested port ∷ [], returned killed_gracefully)
unfolding wait_for_process
checks_graceful s port pid timeout a g =
    graceful_of s port pid timeout a (checks_poll s pid 0 (checks_before timeout) g)

-- The manager answers that a process was shut down gracefully exactly if the control server
-- accepted the request and one of the checks before the timeout found the process gone; exactly
-- then that answer comes after the request alone, with no kill signal sent.
pub try_shut_down_process_lem :
    (s : System) (port : Option ℕ) (pid timeout : ℕ)
    → (((try_shut_down_process s port pid timeout).1 ≡ returned killed_gracefully)
        ↔ ((s.put_shutdown port ≡ accepted) × IsGone s pid 0 (checks_before timeout)))
      × ((try_shut_down_process s port pid timeout
            ≡ (shutdown_requested port ∷ [], returned killed_gracefully))
          ↔ ((s.put_shutdown port ≡ accepted) × IsGone s pid 0 (checks_before timeout)))
try_shut_down_process_lem s port pid timeout = (
  (
    graceful_checks s port pid timeout,
    λ h. ap (λ r. r.1) (checks_graceful s port pid timeout h.0 h.1),
  ),
  (
    λ h. graceful_checks s port pid timeout (ap (λ r. r.1) h),
    λ h. checks_graceful s port pid timeout h.0 h.1,
  ),
)
