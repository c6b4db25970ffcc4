-- ===== src/Connect.antt =====
-- What a connection goes through on the client's side, for every kind of connection: the target
-- user, the target string, and the exit of the daemon.
pub mod ExitCodes
pub mod ExitLaws
pub mod TargetUser
pub mod TargetString
pub mod Patterns
pub mod RoundTrip
pub mod Starting
pub mod Handler
mod Tests
