-- ===== src/Decision.antt =====
-- app/decision.py: the conditions of a policy's rules, the evaluation of a policy, and the
-- combination of several decisions.
pub mod Commands
pub mod Conditions
pub mod Evaluate
pub mod Hits
pub mod Precedence
pub mod Bands
pub mod Evasion
pub mod Combine
pub mod Tests
