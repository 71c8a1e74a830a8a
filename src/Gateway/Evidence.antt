-- ===== src/Gateway/Evidence.antt =====
-- The audit event that a request to `create_chat_completion` of app/main.py leaves behind.
use real_guard_v.Prelude.{
  ◌≡◌, refl, ◌∙◌, ap, arith, String, true, some, List, [], ◌∷◌, ◌++◌, filter, Bool-cases, inl, inr,
  none,
}
use mathlib.Core.Path.{subst}
use real_guard_v.Json.{Json, str, get}
use real_guard_v.Errors.{Result, ok, err}
use real_guard_v.Store.{Db, AuditEventRow}
use real_guard_v.Store.Tx.{immediate_transaction}
use real_guard_v.Audit.{DecisionRecord, decision_event, record_decision_event, decision_payload}
use real_guard_v.Gateway.{Gateway, Request, Answer, answer_verdict, verdict_name}
use real_guard_v.Gateway.Effects.{World, Act, continue}
use real_guard_v.Decision.Evaluate.{Decision}
use real_guard_v.Schemas.{RiskLevel, Verdict, allow, deny, need_approval}
use real_guard_v.Detectors.{Finding}
use real_guard_v.Gateway.Admission.{Admitted}
use real_guard_v.Audit.Apart.{is_decision_event, decisions, create_approval-decisions}
use real_guard_v.Approvals.Create.{create_approval}
use real_guard_v.Pipeline.{PipelineResult}
use real_guard_v.Gateway.{hits_with}
use real_guard_v.Schemas.{is_deny}
use real_guard_v.Prelude.{if◌then◌else◌}
use real_guard_v.Approvals.Payloads.{first_choice, content_of, sanitized_response}
use real_guard_v.Decision.Combine.{combine_decisions}
use real_guard_v.Gateway.{max_risk_level}
use real_guard_v.Gateway.Admission.{admit}
use real_guard_v.Gateway.Mediation.{admit-db, inspected}
use real_guard_v.Gateway.Outcome.{guard-not_need, overall_verdict}
use real_guard_v.Gateway.Handler.{create_chat_completion}
use real_guard_v.Gateway.Verdicts.{
  choices_of, validated, forward_body, forward, act_on, conclude, release, hold, creation_request,
  refuse, decision_record, all_hits, audit_decision,
}
use real_guard_v.Gateway.Guarding.{Guarded, guard}

-- The last event is the one decision event of the transaction that was not there before.
pub record Logged (transaction_id verdict : String) (db db' : Db) : Type 0 where
  pub earlier : List AuditEventRow
  pub event : AuditEventRow
  pub events_eq : db'.events ≡ earlier ++ event ∷ []
  pub earlier_same :
      filter (is_decision_event transaction_id) earlier
      ≡ filter (is_decision_event transaction_id) db.events
  pub event_type : event.event_type ≡ "decision"
  pub event_transaction : event.transaction_id ≡ some transaction_id
  pub event_apart : event.approval_id ≡ none
  pub event_verdict : get "verdict" event.payload ≡ some (str verdict)

decision_event-columns :
    (g : Gateway) (q : Request) (e : DecisionRecord) (db : Db)
    → let event = decision_event g.hashing q.audit_draws e db in
      (event.event_type ≡ "decision")
      × (event.transaction_id ≡ some e.transaction_id)
      × (event.approval_id ≡ none)
unfolding decision_event
decision_event-columns g q e db = (refl, refl, refl)

decision_event-verdict :
    (g : Gateway) (q : Request) (e : DecisionRecord) (db : Db)
    → get "verdict" (decision_event g.hashing q.audit_draws e db).payload ≡ some (str e.verdict)
unfolding decision_event decision_payload
decision_event-verdict g q e db = refl

module _ (g : Gateway) (q : Request) (production : g.is_production ≡ true) where
  audit-adds :
      (e : DecisionRecord) (w : World) {t : Unit {0}}
      → (audit_decision g q e w).0 ≡ ok t
      → (audit_decision g q e w).1.db.events
        ≡ w.db.events ++ decision_event g.hashing q.audit_draws e w.db ∷ []
  unfolding audit_decision record_decision_event immediate_transaction
  audit-adds e w h = ground arith

  audit-Logged :
      (e : DecisionRecord) (w : World) {t : Unit {0}}
      → (audit_decision g q e w).0 ≡ ok t
      → Logged e.transaction_id e.verdict w.db (audit_decision g q e w).1.db
  audit-Logged e w h = record {
    earlier = w.db.events;
    event = decision_event g.hashing q.audit_draws e w.db;
    events_eq = audit-adds e w h;
    earlier_same = refl;
    event_type = (decision_event-columns g q e w.db).0;
    event_transaction = (decision_event-columns g q e w.db).1;
    event_apart = (decision_event-columns g q e w.db).2;
    event_verdict = decision_event-verdict g q e w.db;
  }

-- What was logged after a step without decision events was logged after what came before it.
Logged-since :
    {t v : String} {db db1 db2 : Db}
    → decisions t db1 ≡ decisions t db
    → Logged t v db1 db2
    → Logged t v db db2
Logged-since same l = record {
  earlier = l.earlier;
  event = l.event;
  events_eq = l.events_eq;
  earlier_same = l.earlier_same ∙ same;
  event_type = l.event_type;
  event_transaction = l.event_transaction;
  event_apart = l.event_apart;
  event_verdict = l.event_verdict;
}

-- An answer is logged under its verdict; an error is not asked about.
abbrev pub IsLogged : String → Db → Result Answer × World → Type 0
IsLogged transaction_id db (ok answer, w) =
    Logged transaction_id (verdict_name (answer_verdict answer)) db w.db
IsLogged transaction_id db (err e, w) = Unit

continue-IsLogged :
    {A : Type 0} (transaction_id : String) (db : Db) (r : Result A) (k : A → Act Answer) (w : World)
    → ((a : A) → r ≡ ok a → IsLogged transaction_id db (k a w))
    → IsLogged transaction_id db (continue r k w)
continue-IsLogged t db (ok a) k w h = h a refl
continue-IsLogged t db (err e) k w h = tt

module _ (g : Gateway) (q : Request) (production : g.is_production ≡ true) (a : Admitted) where
  refuse-IsLogged :
      (d : Decision) (level : RiskLevel) (findings : List Finding) (message : String) (w : World)
      → d.verdict ≡ deny
      → IsLogged q.transaction_id w.db (refuse g q a d level findings message w)
  unfolding refuse
  refuse-IsLogged d level findings message w e =
      let q' : DecisionRecord = decision_record g q a d level (all_hits g q a d) in
      continue-IsLogged q.transaction_id w.db (audit_decision g q q' w).0 _
        (audit_decision g q q' w).1
        (λ t h. rw⁻¹ (ap verdict_name e) (audit-Logged g q production q' w h))

  hold-IsLogged :
      (r : PipelineResult) (w : World)
      → r.decision.verdict ≡ need_approval
      → IsLogged q.transaction_id w.db (hold g q a r w)
  unfolding hold
  hold-IsLogged r w e =
      let c = create_approval g.hashing q.approval_draws (creation_request g q a r) in
      let e' : DecisionRecord =
        decision_record g q a r.decision r.risk.risk_level
          (hits_with need_approval r.decision.policy_hits) in
      let w' : World = record w { db = (c w.db).1 } in
      continue-IsLogged q.transaction_id w.db (c w.db).0 _ w' λ rows _.
        continue-IsLogged q.transaction_id w.db (audit_decision g q e' w').0 _
          (audit_decision g q e' w').1
          (λ t h. rw⁻¹ (ap verdict_name e) (
            Logged-since
              (create_approval-decisions q.transaction_id g.hashing q.approval_draws
                (creation_request g q a r) w.db)
              (audit-Logged g q production e' w' h)))

  release-IsLogged :
      (overall : Decision) (level : RiskLevel) (content response : Json) (w : World)
      → overall.verdict ≡ allow
      → IsLogged q.transaction_id w.db (release g q a overall level content response w)
  unfolding release
  release-IsLogged overall level content response w e =
      let e' : DecisionRecord = decision_record g q a overall level (all_hits g q a overall) in
      let w' : World = (audit_decision g q e' w).1 in
      continue-IsLogged q.transaction_id w.db
        (choices_of g q a (sanitized_response content response)) _ w
        λ choices _. continue-IsLogged q.transaction_id w.db (audit_decision g q e' w).0 _ w' λ t h.
          continue-IsLogged q.transaction_id w.db (validated g q a response choices) _ w'
            λ _ _. rw⁻¹ (ap verdict_name e) (audit-Logged g q production e' w h)

  conclude-IsLogged :
      (r : PipelineResult) (response : Json) (o : Guarded) (overall : Decision) (w : World)
      → overall.verdict ≡ (if is_deny o.decision.verdict then deny else allow)
      → IsLogged q.transaction_id w.db (conclude g q a r response o overall w)
  unfolding conclude
  conclude-IsLogged r response o overall w e =
      let level = max_risk_level r.risk.risk_level o.risk_level in
      elim (Bool-cases (is_deny overall.verdict)) [
        | inl denied ↦ rw denied (
            refuse-IsLogged overall level (r.findings ++ o.findings) "Response blocked by policy." w
              (ground arith))
        | inr passed ↦
            rw passed (release-IsLogged overall level o.content response w (ground arith))
      ]

  forward-IsLogged :
      (r : PipelineResult) (w : World)
      → r.decision.verdict ≡ allow
      → IsLogged q.transaction_id w.db (forward g q a r w)
  unfolding forward
  forward-IsLogged r w allowed =
      let t = q.transaction_id in
      let d = r.decision in
      let w' : World = record w { sent = w.sent ++ forward_body g q a d ∷ [] } in
      continue-IsLogged t w.db (g.complete (forward_body g q a d)) _ w' λ response _.
        continue-IsLogged t w.db (first_choice response) _ w' λ choice _.
          continue-IsLogged t w.db (guard g q a d response (content_of choice)) _ w' λ o guarded.
            continue-IsLogged t w.db (combine_decisions (d ∷ o.decision ∷ [])) _ w'
              λ overall combined. conclude-IsLogged r response o overall w' (
                overall_verdict d o.decision overall allowed
                  (guard-not_need g q a d response (content_of choice) guarded) combined)

  act_on-IsLogged :
      (v : Verdict) (r : PipelineResult) (w : World)
      → r.decision.verdict ≡ v
      → IsLogged q.transaction_id w.db (act_on g q a v r w)
  act_on-IsLogged deny r w e =
      refuse-IsLogged r.decision r.risk.risk_level r.findings "Request blocked by policy." w e
  act_on-IsLogged need_approval r w e = hold-IsLogged r w e
  act_on-IsLogged allow r w e = forward-IsLogged r w e

module _ (g : Gateway) (q : Request) (production : g.is_production ≡ true) where
  -- In production, a request that is answered (refused, held, or completed) leaves exactly one new
  -- event of type "decision" of its transaction (PRV-009), an event of no approval: it is the last
  -- event, it carries the verdict of the answer, and the transaction's events of that type before it
  -- are those that were there before the request.
  pub answer-IsLogged : (w : World) → IsLogged q.transaction_id w.db (create_chat_completion g q w)
  unfolding create_chat_completion
  answer-IsLogged w =
      continue-IsLogged q.transaction_id w.db (admit g q w).0 _ (admit g q w).1 λ a _.
        continue-IsLogged q.transaction_id w.db (inspected g a) _ (admit g q w).1 λ r _.
          subst
            (λ db. IsLogged q.transaction_id db (act_on g q a r.decision.verdict r (admit g q w).1))
            (admit-db g q w)
            (act_on-IsLogged g q production a r.decision.verdict r (admit g q w).1 refl)
