-- ===== src/Gateway/Grounds.antt =====
-- What an answer of `create_chat_completion` (app/main.py) rests on: the decision on the request, or,
-- after the provider was asked, the guard's decision on the response.
use real_guard_v.Prelude.{
  ◌≡◌, refl, arith, List, [], ◌∷◌, ◌++◌, if◌then◌else◌, Bool-cases, inl, inr, String, true, false,
  sym, Option,
}
use mathlib.Core.Path.{subst}
use real_guard_v.Json.{Json}
use real_guard_v.Errors.{Result, ok, err}
use real_guard_v.Schemas.{RiskLevel, Verdict, allow, deny, need_approval, is_deny}
use real_guard_v.Detectors.{Finding}
use real_guard_v.Decision.Evaluate.{Decision}
use real_guard_v.Decision.Combine.{combine_decisions}
use real_guard_v.Approvals.Create.{create_approval}
use real_guard_v.Approvals.Payloads.{first_choice, content_of, sanitized_response}
use real_guard_v.Pipeline.{PipelineResult}
use real_guard_v.Gateway.{
  Gateway, Request, Answer, refused, held, completed, answer_verdict, max_risk_level, hits_with,
  DeniedResponse, NeedApprovalResponse, AllowedResponse,
}
use real_guard_v.Gateway.Effects.{World, Act, continue}
use real_guard_v.Gateway.Admission.{Admitted, admit}
use real_guard_v.Gateway.Mediation.{inspected}
use real_guard_v.Gateway.Outcome.{guard-not_need, overall_verdict}
use real_guard_v.Gateway.Verdicts.{
  audit_decision, refuse, hold, forward, forward_body, conclude, release, act_on, choices_of,
  validated, decision_record, all_hits, creation_request,
}
use real_guard_v.Gateway.Guarding.{Guarded, guard}
use real_guard_v.Gateway.Handler.{create_chat_completion}

module _ (g : Gateway) (q : Request) (a : Admitted) where
  -- A completion hands on the response with the content that the guard let through.
  abbrev pub HandsOn : Guarded → Json → Answer → Type 0
  HandsOn o response (completed c) =
      (choices_of g q a (sanitized_response o.content response) ≡ ok c.choices)
      × (c.upstream ≡ response)
  HandsOn o response _ = Unit

-- `by_request`: not allowed. `by_response`: allowed, answered by the provider, and guarded.
pub data Grounds (g : Gateway) (q : Request) (w : World) (answer : Answer) : Type 0 where
  by_request :
      (a : Admitted) (r : PipelineResult)
      → (admit g q w).0 ≡ ok a
      → inspected g a ≡ ok r
      → answer_verdict answer ≡ r.decision.verdict
      → (answer_verdict answer ≡ allow → ⊥)
      → Grounds g q w answer
  by_response :
      (a : Admitted) (r : PipelineResult) (response : Json) (choice : Option Json) (o : Guarded)
      → (admit g q w).0 ≡ ok a
      → inspected g a ≡ ok r
      → r.decision.verdict ≡ allow
      → g.complete (forward_body g q a r.decision) ≡ ok response
      → first_choice response ≡ ok choice
      → guard g q a r.decision response (content_of choice) ≡ ok o
      → answer_verdict answer ≡ (if is_deny o.decision.verdict then deny else allow)
      → HandsOn g q a o response answer
      → Grounds g q w answer

-- What holds of the answer, if there is one.
abbrev Answers : (Answer → Type 0) → Result Answer × World → Type 0
Answers P (ok answer, w) = P answer
Answers P (err e, w) = Unit

continue-Answers :
    {A : Type 0} (P : Answer → Type 0) (r : Result A) (k : A → Act Answer) (w : World)
    → ((a : A) → r ≡ ok a → Answers P (k a w))
    → Answers P (continue r k w)
continue-Answers P (ok a) k w h = h a refl
continue-Answers P (err e) k w h = tt

module _ (g : Gateway) (q : Request) (a : Admitted) (P : Answer → Type 0) where
  refuse-Answers :
      (d : Decision) (level : RiskLevel) (findings : List Finding) (message : String) (w : World)
      → ((x : DeniedResponse) → P (refused x))
      → Answers P (refuse g q a d level findings message w)
  unfolding refuse
  refuse-Answers d level findings message w p =
      let e = decision_record g q a d level (all_hits g q a d) in
      continue-Answers P (audit_decision g q e w).0 _ (audit_decision g q e w).1 (λ _ _. p _)

  hold-Answers :
      (r : PipelineResult) (w : World)
      → ((x : NeedApprovalResponse) → P (held x))
      → Answers P (hold g q a r w)
  unfolding hold
  hold-Answers r w p =
      let c = create_approval g.hashing q.approval_draws (creation_request g q a r) in
      let e =
        decision_record g q a r.decision r.risk.risk_level
          (hits_with need_approval r.decision.policy_hits) in
      let w' : World = record w { db = (c w.db).1 } in
      continue-Answers P (c w.db).0 _ w' λ rows _.
        continue-Answers P (audit_decision g q e w').0 _ (audit_decision g q e w').1 (λ _ _. p _)

  release-Answers :
      (overall : Decision) (level : RiskLevel) (content response : Json) (w : World)
      → ((x : AllowedResponse)
          → choices_of g q a (sanitized_response content response) ≡ ok x.choices
          → x.upstream ≡ response
          → P (completed x))
      → Answers P (release g q a overall level content response w)
  unfolding release
  release-Answers overall level content response w p =
      let e = decision_record g q a overall level (all_hits g q a overall) in
      let w' : World = (audit_decision g q e w).1 in
      continue-Answers P (choices_of g q a (sanitized_response content response)) _ w
        λ choices same.
          continue-Answers P (audit_decision g q e w).0 _ w'
            λ _ _. continue-Answers P (validated g q a response choices) _ w' λ _ _. p _ same refl

  conclude-Answers :
      (r : PipelineResult) (response : Json) (o : Guarded) (overall : Decision) (w : World)
      → (is_deny overall.verdict ≡ true → (x : DeniedResponse) → P (refused x))
      → (is_deny overall.verdict ≡ false
          → (x : AllowedResponse)
          → choices_of g q a (sanitized_response o.content response) ≡ ok x.choices
          → x.upstream ≡ response
          → P (completed x))
      → Answers P (conclude g q a r response o overall w)
  unfolding conclude
  conclude-Answers r response o overall w p p' =
      let level = max_risk_level r.risk.risk_level o.risk_level in
      elim (Bool-cases (is_deny overall.verdict)) [
        | inl denied ↦ rw denied (
            refuse-Answers overall level (r.findings ++ o.findings) "Response blocked by policy." w
              (p denied))
        | inr passed ↦ rw passed (release-Answers overall level o.content response w (p' passed))
      ]

module _ (g : Gateway) (q : Request) (w0 : World) (a : Admitted) (r : PipelineResult)
    (let_in : (admit g q w0).0 ≡ ok a) (seen : inspected g a ≡ ok r) where
  forward-Grounds :
      (w : World) → r.decision.verdict ≡ allow → Answers (Grounds g q w0) (forward g q a r w)
  unfolding forward
  forward-Grounds w allowed =
      let P = Grounds g q w0 in
      let d = r.decision in
      let w' : World = record w { sent = w.sent ++ forward_body g q a d ∷ [] } in
      continue-Answers P (g.complete (forward_body g q a d)) _ w' λ response told.
        continue-Answers P (first_choice response) _ w' λ choice chosen.
          continue-Answers P (guard g q a d response (content_of choice)) _ w' λ o guarded.
            continue-Answers P (combine_decisions (d ∷ o.decision ∷ [])) _ w' λ overall combined.
              let verdict =
                overall_verdict d o.decision overall allowed
                  (guard-not_need g q a d response (content_of choice) guarded) combined in
              conclude-Answers g q a P r response o overall w'
                (λ denied x.
                  by_response a r response choice o let_in seen allowed told chosen guarded
                    (ground arith) tt)
                (λ passed x same own.
                  by_response a r response choice o let_in seen allowed told chosen guarded
                    (ground arith) (same, own))

  act_on-Grounds :
      (v : Verdict) (w : World)
      → r.decision.verdict ≡ v
      → Answers (Grounds g q w0) (act_on g q a v r w)
  act_on-Grounds deny w e =
      refuse-Answers g q a (Grounds g q w0) _ _ _ _ w
        λ x. by_request a r let_in seen (sym e) (λ h. cc)
  act_on-Grounds need_approval w e =
      hold-Answers g q a (Grounds g q w0) r w λ x. by_request a r let_in seen (sym e) (λ h. cc)
  act_on-Grounds allow w e = forward-Grounds w e

module _ (g : Gateway) (q : Request) where
  handler-Answers : (w : World) → Answers (Grounds g q w) (create_chat_completion g q w)
  unfolding create_chat_completion
  handler-Answers w =
      let P = Grounds g q w in
      continue-Answers P (admit g q w).0 _ (admit g q w).1 λ a let_in.
        continue-Answers P (inspected g a) _ (admit g q w).1
          λ r seen. act_on-Grounds g q w a r let_in seen r.decision.verdict (admit g q w).1 refl

  -- Every answer rests on the request's decision, if that is not ALLOW: then it has that decision's
  -- verdict. Otherwise the provider was asked with the transformed body, the guard decided on the
  -- content of the first choice of its response, and the answer is refused exactly if the guard's
  -- decision is DENY, and completed otherwise; a completed answer hands on the provider's response
  -- with the content that the guard let through in its first choice.
  pub answer-Grounds :
      (w : World) {answer : Answer}
      → (create_chat_completion g q w).0 ≡ ok answer
      → Grounds g q w answer
  answer-Grounds w {answer} h = go (create_chat_completion g q w) h (handler-Answers w)
    where
      go :
          (x : Result Answer × World)
          → x.0 ≡ ok answer
          → Answers (Grounds g q w) x
          → Grounds g q w answer
      go (ok b, w') e p = subst (Grounds g q w) (cc) p
      go (err e', w') e p = cc
