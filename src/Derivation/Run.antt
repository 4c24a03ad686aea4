-- ===== src/Derivation/Run.antt =====
-- The runs of internal/derivation: a derivation fails with one of its sentinels.
use manu.Base.Run.{poll_with}
pub use manu.Base.Run.{
  Polls, failed, done, give, refuse, check, bind-done, then-done, check-done, done-value,
}
unfoldable pub use manu.Base.Run.{◌>>=◌, ◌>>◌}

-- The sentinels of internal/derivation/types.go and limits.go.
pub data Error : Type 0 where
  invalid_rule duplicate_rule invalid_input invalid_limits input_exceeds_fact_limit duplicate_fact :
      Error
  invalid_output rule_failed context_ended : Error

abbrev pub Run : Type 0 → Type 0
Run A = manu.Base.Run.Run Error A

unfoldable pub poll : Run (Unit {0})
poll = poll_with context_ended
