-- ===== src/Gateway/Verdicts.antt =====
-- The branches of `create_chat_completion` of app/main.py: a request is refused, held for a
-- reviewer, or forwarded, after which the guard's decision on the response is combined with the one
-- on the request.
use real_guard_v.Prelude.{
  String, Bool, none, some, List, [], ◌∷◌, ◌++◌, map, if◌then◌else◌, ◌&&◌, is_some,
}
use real_guard_v.Json.{
  Json, null, str, arr, obj, end, field, get, get_or, set_field, elements, from_list,
}
use real_guard_v.Errors.{Result, ok, err, firewall_error, database_error, type_error, value_error}
use real_guard_v.Schemas.{Verdict, allow, deny, need_approval, is_deny, RiskLevel}
use real_guard_v.Detectors.{Finding}
use real_guard_v.Materialargs.{compute_material_args_hash}
use real_guard_v.Approvals.Create as Create
use real_guard_v.Approvals.Resume.{transformation_name}
use real_guard_v.Approvals.Payloads.{first_choice, content_of, sanitized_response}
use real_guard_v.Audit.{DecisionRecord, record_decision_event}
use real_guard_v.Decision.Evaluate.{Decision, PolicyHit}
use real_guard_v.Decision.Combine.{combine_decisions}
use real_guard_v.Pipeline.{PipelineResult}
use real_guard_v.Gateway.{
  Gateway, Request, Answer, refused, held, completed, DeniedResponse, verdict_name, max_risk_level,
  hits_with, confidence_for_reason_codes,
}
use real_guard_v.Gateway.Effects.{Act, pure, lift, ◌>>=◌, ◌>>◌, on_db, call}
use real_guard_v.Gateway.Admission.{Admitted}
use real_guard_v.Gateway.Guarding.{Guarded, forward_messages, guard}

module _ (g : Gateway) (q : Request) where
  abbrev pub mode : String
  mode = if g.mock_mode then "mock" else "live"

  -- `_audit_decision`: a failure ends the request in production, and is passed over elsewhere.
  abbrev settle_audit : Result (Unit {0}) → Result (Unit {0})
  settle_audit (ok _) = ok tt
  settle_audit (err _) = if g.is_production then err (firewall_error database_error none) else ok tt

  abbrev pub recorded : DecisionRecord → Act (Unit {0})
  recorded e w =
      if g.audit_fails
      then (err value_error, w)
      else on_db (record_decision_event g.hashing q.audit_draws e) w

  unfoldable pub audit_decision : DecisionRecord → Act (Unit {0})
  audit_decision e w = let (r, w') = recorded e w in (settle_audit r, w')

module _ (g : Gateway) (q : Request) (a : Admitted) where
  abbrev pub decision_record : Decision → RiskLevel → List String → DecisionRecord
  decision_record d risk_level policy_hits = record {
    transaction_id = q.transaction_id;
    correlation_id = q.correlation_id;
    actor_id = a.identity.identity_id;
    verdict = verdict_name d.verdict;
    risk_level = Create.risk_name risk_level;
    transformation = transformation_name d.transformation;
    reason_codes = d.reason_codes;
    policy_hits = policy_hits;
    policy_version = a.policy.policy_version;
    mode = mode g q;
    degraded = d.degraded;
  }

  abbrev pub all_hits : Decision → List String
  all_hits d = map (λ (h : PolicyHit). h.rule_id) d.policy_hits

  pub denied_response : Decision → RiskLevel → List Finding → String → DeniedResponse
  denied_response d risk_level findings message = record {
    risk_level = risk_level;
    reason_codes = d.reason_codes;
    policy_hits = hits_with deny d.policy_hits;
    transaction_id = q.transaction_id;
    message = message;
    policy_version = a.policy.policy_version;
    degraded = d.degraded;
    mode = mode g q;
    findings_summary = confidence_for_reason_codes findings d.reason_codes;
  }

  -- Both refusals, of a request and of a response.
  unfoldable pub refuse : Decision → RiskLevel → List Finding → String → Act Answer
  unfolding denied_response
  refuse d risk_level findings message = do
    audit_decision g q (decision_record d risk_level (all_hits d))
    pure (refused (denied_response d risk_level findings message))

  -- `{**body, "messages": messages}`
  abbrev with_messages : List Json → Json → Json
  with_messages messages (obj fs) = obj (set_field "messages" (arr (from_list messages)) fs)
  with_messages messages other = other

  abbrev pub forward_body : Decision → Json
  forward_body d = with_messages (forward_messages g q a d) a.body

  unfoldable pub creation_request : PipelineResult → Create.Request
  creation_request r =
      let messages = forward_messages g q a r.decision in
      record {
        transaction_id = q.transaction_id;
        request_id = q.request_id;
        correlation_id = q.correlation_id;
        creator_identity_id = a.identity.identity_id;
        mode = mode g q;
        risk_level = r.risk.risk_level;
        reason_codes = r.decision.reason_codes;
        policy_hits = hits_with need_approval r.decision.policy_hits;
        transformation = r.decision.transformation;
        policy_version = a.policy.policy_version;
        preview_content = obj (field "messages" (arr (from_list messages)) end);
        transformed_payload = forward_body r.decision;
        material_args_hash =
            compute_material_args_hash g.hashing.digest messages (get_or "tools" a.body null);
        ttl_seconds = g.approval_ttl_seconds;
        retain_raw_content = g.retains_content;
        raw_request_content = if g.retains_content then some a.body else none;
      }

  -- The branch NEED_APPROVAL.
  unfoldable pub hold : PipelineResult → Act Answer
  unfolding creation_request
  hold r = do
    rows ← on_db (Create.create_approval g.hashing q.approval_draws (creation_request r))
    audit_decision g q (
        decision_record r.decision r.risk.risk_level
          (hits_with need_approval r.decision.policy_hits))
    pure (
        held (record {
          risk_level = r.risk.risk_level;
          reason_codes = r.decision.reason_codes;
          policy_hits = hits_with need_approval r.decision.policy_hits;
          transformation = r.decision.transformation;
          transaction_id = q.transaction_id;
          request_id = q.request_id;
          approval_id = rows.0.id;
          expires_at = rows.0.expires_at;
        }))

  abbrev letters : String → List Json
  letters String.[] = []
  letters (String.◌∷◌ c s) = str (String.◌∷◌ c String.[]) ∷ letters s

  -- `list(upstream_response["choices"])`; a dict that is not empty has been indexed before, and raised.
  abbrev pub choices_of : Json → Result (List Json)
  choices_of response = elim (get "choices" response) [
    | none ↦ err type_error
    | some choices ↦ elim choices [
      | arr xs ↦ ok (elements xs)
      | str s ↦ ok (letters s)
      | obj _ ↦ ok []
      | _ ↦ err type_error
    ]
  ]

  -- The names that `AllowedResponse(...)` reads.
  abbrev pub has_fields : Json → Bool
  has_fields response =
      is_some (get "id" response)
      && is_some (get "object" response)
      && is_some (get "created" response)
      && is_some (get "model" response)
      && is_some (get "usage" response)

  abbrev pub validated : Json → List Json → Result (Unit {0})
  validated response choices =
      if has_fields response && g.is_completion response choices then ok tt else err value_error

  -- ALLOW on both planes; the event is written before the answer is put together.
  unfoldable pub release : Decision → RiskLevel → Json → Json → Act Answer
  release overall risk_level content response = do
    choices ← lift (choices_of (sanitized_response content response))
    audit_decision g q (decision_record overall risk_level (all_hits overall))
    lift (validated response choices)
    pure (
        completed (record {
          upstream = response;
          choices = choices;
          transformation = overall.transformation;
          transaction_id = q.transaction_id;
          risk_level = risk_level;
          reason_codes = overall.reason_codes;
          policy_hits = hits_with allow overall.policy_hits;
          policy_version = a.policy.policy_version;
          degraded = overall.degraded;
          mode = mode g q;
        }))

  unfoldable pub conclude : PipelineResult → Json → Guarded → Decision → Act Answer
  conclude r response o overall =
      let risk_level = max_risk_level r.risk.risk_level o.risk_level in
      if is_deny overall.verdict
      then refuse overall risk_level (r.findings ++ o.findings) "Response blocked by policy."
      else release overall risk_level o.content response

  -- The branch ALLOW.
  unfoldable pub forward : PipelineResult → Act Answer
  forward r = do
    response ← call g.complete (forward_body r.decision)
    choice ← lift (first_choice response)
    o ← lift (guard g q a r.decision response (content_of choice))
    overall ← lift (combine_decisions (r.decision ∷ o.decision ∷ []))
    conclude r response o overall

  abbrev pub act_on : Verdict → PipelineResult → Act Answer
  act_on deny r = refuse r.decision r.risk.risk_level r.findings "Request blocked by policy."
  act_on need_approval r = hold r
  act_on allow r = forward r
