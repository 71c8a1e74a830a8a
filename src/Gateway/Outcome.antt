-- ===== src/Gateway/Outcome.antt =====
-- The verdict after a response (app/main.py): the guard never asks for a reviewer, so what is
-- combined of an allowed request and its response is ALLOW or DENY.
use real_guard_v.Prelude.{◌≡◌, arith, false, [], ◌∷◌, some, if◌then◌else◌}
use real_guard_v.Text.{codes}
use real_guard_v.Json.{Json, str, null, bool, num, arr, obj}
use real_guard_v.Errors.{ok}
use real_guard_v.Schemas.{allow, deny, is_deny}
use real_guard_v.Decision.Evaluate.{Decision, evaluate_policy}
use real_guard_v.Decision.Precedence.{is_need}
use real_guard_v.Decision.Combine.{combine_decisions, combine-strongest}
use real_guard_v.Outputguard.{clamp, egress_facts, guard-two_verdicts, Seen}
use real_guard_v.Approvals.Payloads.{system_prompt_text_from_messages}
use real_guard_v.Gateway.{Gateway, Request}
use real_guard_v.Gateway.Admission.{Admitted}
use real_guard_v.Gateway.Guarding.{Guarded, of_other, guard, forward_messages}

clamp-not_need : (d : Decision) → is_need (clamp d).verdict ≡ false
clamp-not_need d = ground arith

module _ (g : Gateway) (q : Request) (a : Admitted) where
  other-not_need :
      (content : Json) (s : Seen) {o : Guarded}
      → of_other g q a content s ≡ ok o
      → is_need o.decision.verdict ≡ false
  other-not_need content s h =
      ground
        (arith, clamp-not_need (evaluate_policy g.casing a.policy (egress_facts s) s.is_degraded))

  pub guard-not_need :
      (d : Decision) (response content : Json) {o : Guarded}
      → guard g q a d response content ≡ ok o
      → is_need o.decision.verdict ≡ false
  unfolding guard
  guard-not_need d response (str s) h = ground (
    arith,
    guard-two_verdicts g.casing g.patterns g.guards a.policy (codes s)
        (system_prompt_text_from_messages (forward_messages g q a d)) (some response),
  )
  guard-not_need d response null h = other-not_need null (g.guards_other null) h
  guard-not_need d response (bool b) h = other-not_need (bool b) (g.guards_other (bool b)) h
  guard-not_need d response (num n) h = other-not_need (num n) (g.guards_other (num n)) h
  guard-not_need d response (arr xs) h = other-not_need (arr xs) (g.guards_other (arr xs)) h
  guard-not_need d response (obj fs) h = other-not_need (obj fs) (g.guards_other (obj fs)) h

pub overall_verdict :
    (d e overall : Decision)
    → d.verdict ≡ allow
    → is_need e.verdict ≡ false
    → combine_decisions (d ∷ e ∷ []) ≡ ok overall
    → overall.verdict ≡ (if is_deny e.verdict then deny else allow)
overall_verdict d e overall allowed settled h =
    let (c, combined, verdict, _) = combine-strongest d (e ∷ []) in ground arith
