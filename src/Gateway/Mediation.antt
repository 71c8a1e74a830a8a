-- ===== src/Gateway/Mediation.antt =====
-- What of a request to `create_chat_completion` of app/main.py reaches the provider, and on what the
-- answer rests.
use real_guard_v.Prelude.{◌≡◌, refl, ◌∙◌, ap, sym, arith, inl, inr, List, [], ◌∷◌, ◌++◌}
use real_guard_v.Json.{Json}
use real_guard_v.Errors.{Result, ok, err, Result-cases}
use real_guard_v.Schemas.{Verdict, allow, deny, need_approval}
use real_guard_v.Prelude.{String}
use real_guard_v.Detectors.{Finding}
use real_guard_v.Schemas.{RiskLevel}
use real_guard_v.Approvals.Create.{create_approval}
use real_guard_v.Approvals.Payloads.{first_choice, content_of, sanitized_response}
use real_guard_v.Decision.Combine.{combine_decisions}
use real_guard_v.Audit.{DecisionRecord}
use real_guard_v.Auth.{Identity}
use real_guard_v.Decision.Evaluate.{Decision}
use real_guard_v.Pipeline.{PipelineResult, run_input_pipeline}
use mathlib.Core.List.{append-nil}
use real_guard_v.Gateway.{max_risk_level, Gateway, Request}
use real_guard_v.Gateway.Effects.{World, lift, on_db, continue, ◌>>=◌, lift-keep, >>=-keep}
use real_guard_v.Gateway.Admission.{Admitted, presented, admit, limit}
use real_guard_v.Gateway.Verdicts.{
  choices_of, validated, creation_request, refuse, hold, forward, conclude, release, forward_body,
  act_on, audit_decision,
}
use real_guard_v.Gateway.Guarding.{Guarded, guard}
use real_guard_v.Gateway.Handler.{create_chat_completion}

abbrev pub sent_of : World → List Json
sent_of w = w.sent

module _ (g : Gateway) (q : Request) where
  limit-sent : (i : Identity) (w : World) → (limit g q i w).1.sent ≡ w.sent
  unfolding limit
  limit-sent i w = ground arith

  limit-db : (i : Identity) (w : World) → (limit g q i w).1.db ≡ w.db
  unfolding limit
  limit-db i w = ground arith

  audit-sent : (e : DecisionRecord) (w : World) → (audit_decision g q e w).1.sent ≡ w.sent
  unfolding audit_decision
  audit-sent e w = ground arith

module _ (g : Gateway) (q : Request) where
  -- The admission asks nothing of the provider, and writes nothing but the limiter's rows.
  pub admit-sent : (w : World) → (admit g q w).1.sent ≡ w.sent
  unfolding admit
  admit-sent w = elim (Result-cases (presented g q)) [
    | inl (p, shown) ↦ ground (arith, limit-sent g q p.2 w)
    | inr (e, raised) ↦ ground arith
  ]

  pub admit-db : (w : World) → (admit g q w).1.db ≡ w.db
  unfolding admit
  admit-db w = elim (Result-cases (presented g q)) [
    | inl (p, shown) ↦ ground (arith, limit-db g q p.2 w)
    | inr (e, raised) ↦ ground arith
  ]

module _ (g : Gateway) (q : Request) (a : Admitted) where
  refuse-sent :
      (d : Decision) (level : RiskLevel) (findings : List Finding) (message : String) (w : World)
      → (refuse g q a d level findings message w).1.sent ≡ w.sent
  unfolding refuse
  refuse-sent d level findings message w =
      >>=-keep sent_of (audit_decision g q _) _ w (audit-sent g q _ w) (λ _ _. refl)

  hold-sent : (r : PipelineResult) (w : World) → (hold g q a r w).1.sent ≡ w.sent
  unfolding hold
  hold-sent r w =
      >>=-keep sent_of
        (on_db (create_approval g.hashing q.approval_draws (creation_request g q a r))) _ w refl
        (λ rows w'.
          >>=-keep sent_of (audit_decision g q _) _ w' (audit-sent g q _ w') (λ _ _. refl))

  release-sent :
      (overall : Decision) (level : RiskLevel) (content response : Json) (w : World)
      → (release g q a overall level content response w).1.sent ≡ w.sent
  unfolding release
  release-sent overall level content response w =
      lift-keep sent_of (choices_of g q a (sanitized_response content response)) _ w λ choices.
        >>=-keep sent_of (audit_decision g q _) _ w (audit-sent g q _ w)
          λ _ w'. lift-keep sent_of (validated g q a response choices) _ w' λ _. refl

  conclude-sent :
      (r : PipelineResult) (response : Json) (o : Guarded) (overall : Decision) (w : World)
      → (conclude g q a r response o overall w).1.sent ≡ w.sent
  unfolding conclude
  conclude-sent r response o overall w =
      let level = max_risk_level r.risk.risk_level o.risk_level in
      ground (
        arith,
        refuse-sent overall level (r.findings ++ o.findings) "Response blocked by policy." w,
        release-sent overall level o.content response w,
      )

  forward-sent :
      (r : PipelineResult) (w : World)
      → (forward g q a r w).1.sent ≡ w.sent ++ forward_body g q a r.decision ∷ []
  unfolding forward
  forward-sent r w =
      let w' : World = record w { sent = w.sent ++ forward_body g q a r.decision ∷ [] } in
      lift-keep sent_of (g.complete (forward_body g q a r.decision)) _ w' λ response.
        lift-keep sent_of (first_choice response) _ w' λ choice.
          lift-keep sent_of (guard g q a r.decision response (content_of choice)) _ w' λ o.
            lift-keep sent_of (combine_decisions (r.decision ∷ o.decision ∷ [])) _ w'
              λ overall. conclude-sent r response o overall w'

-- The one request that the verdict lets go to the provider.
abbrev pub to_provider : Gateway → Request → Admitted → Verdict → Decision → List Json
to_provider g q a allow d = forward_body g q a d ∷ []
to_provider g q a _ d = []

abbrev pub inspected : Gateway → Admitted → Result PipelineResult
inspected g a = run_input_pipeline g.casing a.policy g.inspection a.messages a.tools

-- What a request asks of the provider: nothing, unless it is inspected and admitted.
abbrev pub asked_on : Gateway → Request → Admitted → Result PipelineResult → List Json
asked_on g q a (err _) = []
asked_on g q a (ok r) = to_provider g q a r.decision.verdict r.decision

abbrev pub asked_after : Gateway → Request → Result Admitted → List Json
asked_after g q (err _) = []
asked_after g q (ok a) = asked_on g q a (inspected g a)

same_sent : {xs ys : List Json} → xs ≡ ys → xs ≡ ys ++ []
same_sent e = e ∙ sym (append-nil _)

module _ (g : Gateway) (q : Request) where
  act_on-sent :
      (a : Admitted) (v : Verdict) (r : PipelineResult) (w : World)
      → (act_on g q a v r w).1.sent ≡ w.sent ++ to_provider g q a v r.decision
  act_on-sent a deny r w = same_sent (refuse-sent g q a _ _ _ _ w)
  act_on-sent a need_approval r w = same_sent (hold-sent g q a r w)
  act_on-sent a allow r w = forward-sent g q a r w

  decided-sent :
      (a : Admitted) (seen : Result PipelineResult) (w : World)
      → (continue seen (λ r. act_on g q a r.decision.verdict r) w).1.sent
        ≡ w.sent ++ asked_on g q a seen
  decided-sent a (ok r) w = act_on-sent a r.decision.verdict r w
  decided-sent a (err e) w = same_sent refl

  handled-sent :
      (admission : Result Admitted) (w : World)
      → (continue admission
          (λ a. lift (inspected g a) >>= λ r. act_on g q a r.decision.verdict r)
          w).1.sent
        ≡ w.sent ++ asked_after g q admission
  handled-sent (ok a) w = decided-sent a (inspected g a) w
  handled-sent (err e) w = same_sent refl

  -- Whatever becomes of a request, an error included, the provider is asked at most once, and only if
  -- the request is admitted (a well-formed body, a known identity that the limiter does not refuse, a
  -- policy), its inspection returns, and the decision on it is ALLOW; what it is asked is the request's
  -- body with its messages transformed as that decision says.
  pub handler-asks :
      (w : World)
      → (create_chat_completion g q w).1.sent ≡ w.sent ++ asked_after g q (admit g q w).0
  unfolding create_chat_completion
  handler-asks w =
      handled-sent (admit g q w).0 (admit g q w).1
      ∙ ap (λ xs. xs ++ asked_after g q (admit g q w).0) (admit-sent g q w)
