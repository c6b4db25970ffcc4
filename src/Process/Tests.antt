-- ===== src/Process/Tests.antt =====
-- A daemon that is gone at the second check.
use zli.Prelude.{nat_key, ◌==◌, ◌↔◌, false, some, [], ◌∷◌, ◌≡◌, if◌then◌else◌}
use zli.Effect.{returned}
use zli.Daemon.Service.{killed_gracefully}
use zli.Process.{
  System, accepted, delivered, no_such_process, shutdown_requested, checks_before,
  try_shut_down_process,
}
use zli.Process.Laws.{IsGone, try_shut_down_process_lem}

abbrev gone_at_second : System
gone_at_second = record {
  is_windows = false;
  put_shutdown = λ port. accepted;
  probe = λ n pid. if n == 0 then delivered else no_such_process;
  kill_group = λ pid. no_such_process;
}

try_shut_down_process_lem_example :
    (((try_shut_down_process gone_at_second (some 9000) 7 15000).1 ≡ returned killed_gracefully) ↔ (
      (gone_at_second.put_shutdown (some 9000) ≡ accepted)
      × IsGone gone_at_second 7 0 (checks_before 15000)))
    × ((try_shut_down_process gone_at_second (some 9000) 7 15000
          ≡ (shutdown_requested (some 9000) ∷ [], returned killed_gracefully))
        ↔ ((gone_at_second.put_shutdown (some 9000) ≡ accepted)
            × IsGone gone_at_second 7 0 (checks_before 15000)))
try_shut_down_process_lem_example = try_shut_down_process_lem gone_at_second (some 9000) 7 15000
