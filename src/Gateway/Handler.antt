-- ===== src/Gateway/Handler.antt =====
-- `create_chat_completion` of app/main.py as a whole, and the status that a request is answered with.
use real_guard_v.Prelude.{ℕ}
use real_guard_v.Errors.{Result, ok, err, firewall}
use real_guard_v.Pipeline.{run_input_pipeline}
use real_guard_v.Gateway.{Gateway, Request, Answer, answer_status}
use real_guard_v.Gateway.Effects.{Act, lift, ◌>>=◌}
use real_guard_v.Gateway.Admission.{admit}
use real_guard_v.Gateway.Verdicts.{act_on}

unfoldable pub create_chat_completion : Gateway → Request → Act Answer
create_chat_completion g q = do
  a ← admit g q
  r ← lift (run_input_pipeline g.casing a.policy g.inspection a.messages a.tools)
  act_on g q a r.decision.verdict r

-- The exception handlers: a `FirewallError` has its status, any other error is 500.
abbrev pub status_of : Result Answer → ℕ
status_of (ok answer) = answer_status answer
status_of (err (firewall _ status)) = status
status_of (err _) = 500
