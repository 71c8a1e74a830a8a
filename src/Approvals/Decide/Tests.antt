-- ===== src/Approvals/Decide/Tests.antt =====
-- Tests of app/approvals.py on small tables: an approval that alice has created and bob decides.
use real_guard_v.Prelude.{ℕ, ◌+◌, ◌≡◌, refl, false, some, none, [], ◌∷◌, inl, eq_iff, arith}
use real_guard_v.Json.{null, obj, end}
use real_guard_v.Errors.{
  ok, err, firewall, approval_expired, self_approval_forbidden, idempotency_conflict,
}
use real_guard_v.Schemas.{unchanged, medium}
use real_guard_v.Store.{Db, ApprovalRow, pending}
use real_guard_v.Store.Tx.{get_approval, get_decision}
use real_guard_v.Store.Table.{find}
use real_guard_v.Approvals.{Hashing, Draws}
use real_guard_v.Approvals.Create.{Request}
use real_guard_v.Approvals.Decide.{Call, decide_approval, replayed, decision_row_of}
use real_guard_v.Approvals.Decide.Applied.{decide_applied, Admits, receipt, decided}
use real_guard_v.Approvals.Decide.Answers.{
  decide_accepts, decide_expired, decide_refuses, own_request,
}
use real_guard_v.Approvals.Resume.{claim_resume, claim_body, claim_found, claim_live}
use real_guard_v.Approvals.Decide.{
  decide_body, first_decision, decide_row, record_decision, replayed,
}
use real_guard_v.Approvals.Decide.Replays.{Agrees}
use real_guard_v.Approvals.Lifecycle.{
  decided_once, empty_db, stay, then_step, create, decide, claim,
}
use real_guard_v.Approvals.Create.{create_approval, create_body, new_transaction, new_approval}
use real_guard_v.Approvals.{move, transition, set_status, audit, audit_event}
use real_guard_v.Store.Tx.{immediate_transaction}
use real_guard_v.Store.Table.{update}
use real_guard_v.Store.{approved, resuming, DecisionRow}

abbrev pub hashing : Hashing
hashing = record { genesis = "0"; chain = λ prev payload. prev; digest = λ v. "h" }

abbrev pub draws : ℕ → Draws
draws n = record {
  now = 10 + n;
  updated = 11 + n;
  logged = 12 + n;
  row_id = "apr_1";
  key = "idk_1";
  event_id = n;
}

abbrev pub request : Request
request = record {
  transaction_id = "txn_1";
  request_id = "req_1";
  correlation_id = "cor_1";
  creator_identity_id = "alice";
  mode = "enforce";
  risk_level = medium;
  reason_codes = "SENSITIVE_ACTION" ∷ [];
  policy_hits = "review_payment" ∷ [];
  transformation = unchanged;
  policy_version = "v";
  preview_content = null;
  transformed_payload = obj end;
  material_args_hash = "h";
  ttl_seconds = 1;
  retain_raw_content = false;
  raw_request_content = none;
}

abbrev pub waiting : ApprovalRow
waiting = record {
  id = "apr_1";
  transaction_id = "txn_1";
  state = pending;
  risk_level = medium;
  reason_codes = "SENSITIVE_ACTION" ∷ [];
  policy_hits = "review_payment" ∷ [];
  preview_content = null;
  transformed_payload = obj end;
  material_args_hash = "h";
  creator_identity_id = "alice";
  resume_attempts = 0;
  completion_result = none;
  expires_at = 1000010;
  created_at = 10;
  updated_at = 10;
}

abbrev pub one_waiting : Db
one_waiting = record { transactions = []; approvals = waiting ∷ []; decisions = []; events = [] }

abbrev pub approve : Call
approve = record {
  approval_id = "apr_1";
  decision = "APPROVE";
  note = none;
  reviewer_id = "bob";
  idempotency_key = "idk_b";
  correlation_id = "cor_2";
}

bob_admitted : Admits (draws 1) approve waiting
bob_admitted = record {
  is_open = refl;
  in_time = omega arith;
  by_another = λ e. absurd (ground (arith, eq_iff "bob" "alice"));
  verb = inl refl;
}

decide_accepts_example :
    (decide_approval hashing (draws 1) approve one_waiting).0
    ≡ ok (receipt hashing (draws 1) approve waiting)
unfolding find
decide_accepts_example =
    decide_accepts hashing (draws 1) approve waiting one_waiting refl refl bob_admitted refl refl

decide_applied_example :
    (a : ApprovalRow) × (get_approval "apr_1" one_waiting ≡ some a)
    × (get_decision "idk_b" one_waiting ≡ none)
    × Admits (draws 1) approve a
    × (decide_approval hashing (draws 1) approve one_waiting ≡ (
      ok (receipt hashing (draws 1) approve a),
      decided hashing (draws 1) approve a one_waiting,
    ))
decide_applied_example =
    decide_applied hashing (draws 1) approve one_waiting decide_accepts_example refl

-- A second later the time of the request is over.
decide_expired_example :
    decide_approval hashing (draws 1000000) approve one_waiting
    ≡ (err (firewall approval_expired 409), one_waiting)
unfolding find
decide_expired_example =
    decide_expired hashing (draws 1000000) approve waiting one_waiting refl refl
      (inl (refl, omega arith)) refl

-- alice may not approve her own request.
abbrev by_alice : Call
by_alice = record approve { reviewer_id = "alice" }

decide_refuses_example :
    decide_approval hashing (draws 1) by_alice one_waiting
    ≡ (err (firewall self_approval_forbidden 403), one_waiting)
unfolding find
decide_refuses_example =
    decide_refuses hashing (draws 1) by_alice waiting one_waiting refl refl (omega arith)
      (own_request refl refl refl)

-- alice's request approved by bob, and then claimed; bob's call again.
abbrev after_decision : Db
after_decision =
    (decide_approval hashing (draws 1) approve
      (create_approval hashing (draws 0) request empty_db).1).1

abbrev after_claim : Db
after_claim = (claim_resume hashing (draws 2) "apr_1" after_decision).1

abbrev by_bob : DecisionRow
by_bob = record {
  id = "apr_1";
  approval_id = "apr_1";
  decision = "APPROVE";
  reviewer_id = "bob";
  note = none;
  idempotency_key = "idk_b";
  from_state = pending;
  to_state = approved;
  created_at = 11;
}

abbrev in_claim : ApprovalRow
in_claim = record waiting { state = resuming; resume_attempts = 1; updated_at = 13 }

decided_once_example :
    (Agrees approve by_bob
      → decide_approval hashing (draws 3) approve after_claim ≡ (
        ok (record { outcome = replayed; approval = in_claim; decision_row = by_bob }),
        after_claim,
      ))
    × ((Agrees approve by_bob → ⊥)
        → decide_approval hashing (draws 3) approve after_claim
          ≡ (err (firewall idempotency_conflict 409), after_claim))
unfolding find update create_approval create_body new_transaction new_approval decide_approval
    decide_body first_decision decide_row record_decision decision_row_of claim_resume claim_body
    claim_found claim_live immediate_transaction move transition set_status audit audit_event
decided_once_example =
    decided_once hashing (draws 3) approve by_bob in_claim after_decision after_claim
      (then_step (then_step stay (create (draws 0) request)) (decide (draws 1) approve))
      (then_step stay (claim (draws 2) "apr_1")) refl refl
