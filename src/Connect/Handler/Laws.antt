-- ===== src/Connect/Handler/Laws.antt =====
-- When the connection is closed again.
use zli.Prelude.{nat_key, Bool, true, false, any, ◌≡◌}
use zli.Effect.{Outcome, returned, exited, threw}
use zli.Connect.Handler.{ConnectEvent, connection_closed, Handling}

abbrev pub is_closing : ConnectEvent → Bool
is_closing (connection_closed id) = true
is_closing _ = false

abbrev pub is_thrown {ℓ} : {A : Type ℓ} → Outcome A → Bool
is_thrown (returned a) = false
is_thrown (exited code) = false
is_thrown (threw failure) = true

abbrev IsQuiet : {A : Type 0} → Handling A → Type 0
IsQuiet run = any is_closing run.0 ≡ false
