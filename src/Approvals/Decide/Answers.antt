-- ===== src/Approvals/Decide/Answers.antt =====
-- The answers of `decide_approval`: when it applies a decision and when it refuses.
use real_guard_v.Store.Table.{update}
use real_guard_v.Prelude.{◌≡◌, ◌≢◌, ◌⊎◌, ◌<◌, ◌≤◌, ◌∙◌, String, false, none, some, arith, eq_iff}
use real_guard_v.Errors.{
  ok, err, firewall, approval_expired, invalid_approval_state, self_approval_forbidden,
  invalid_request, Error,
}
use real_guard_v.Store.{Db, ApprovalRow, DecisionRow, pending, expired}
use real_guard_v.Store.Tx.{
  get_approval, get_decision, immediate_transaction-ok, immediate_transaction-raise, approval_key,
}
use real_guard_v.Approvals.{Hashing, Draws, audit, move, IsFreshEvent, IsFreshRow}
use real_guard_v.Approvals.Effects.{set_status-eq, moved}
use real_guard_v.Approvals.Decide.{
  Call, DecideResult, verdict_state, has_text, decide_row, record_decision, expire, decide_body,
  decide_approval, first_decision, replay,
}
use real_guard_v.Approvals.Decide.Applied.{Admits, before_audit, receipt}

verbs_differ : ◌≢◌ {A = String} "APPROVE" "DENY"
verbs_differ = ground (arith, eq_iff "APPROVE" "DENY")

module _ (h : Hashing) (d : Draws) (c : Call) where
  decide_row-Admits :
      (a : ApprovalRow) (db : Db)
      → Admits d c a
      → decide_row h d c a db ≡ record_decision h d c a db
  unfolding decide_row
  decide_row-Admits a db admits = ground (
    arith,
    eq_iff c.reviewer_id a.creator_identity_id,
    eq_iff c.decision "APPROVE",
    eq_iff c.decision "DENY",
    verbs_differ,
  )

  record_decision_returns :
      (a : ApprovalRow) (db : Db)
      → Admits d c a
      → get_decision c.idempotency_key db ≡ none
      → IsFreshRow d db
      → IsFreshEvent d db
      → (record_decision h d c a db).0 ≡ ok (receipt h d c a)
  unfolding record_decision audit move
  record_decision_returns a db admits fresh row event = ground (
    arith,
    eq_iff c.decision "APPROVE",
    set_status-eq a.transaction_id (verdict_state c.decision)
        (record (before_audit h d c a db) { transactions = db.transactions }),
  )

  first_decision_found :
      (a : ApprovalRow) (db : Db)
      → get_approval c.approval_id db ≡ some a
      → first_decision h d c db ≡ decide_row h d c a db
  unfolding first_decision
  first_decision_found a db e = ground arith

  decide_body_first :
      (db : Db)
      → get_decision c.idempotency_key db ≡ none
      → decide_body h d c db ≡ first_decision h d c db
  unfolding decide_body
  decide_body_first db e = ground arith

  pub decide_body_used :
      (row : DecisionRow) (db : Db)
      → get_decision c.idempotency_key db ≡ some row
      → decide_body h d c db ≡ replay h d c row db
  unfolding decide_body
  decide_body_used row db e = ground arith

  -- The body of a first decision on a row that is there is the run of its guards.
  decide_body_row :
      (a : ApprovalRow) (db : Db)
      → get_approval c.approval_id db ≡ some a
      → get_decision c.idempotency_key db ≡ none
      → decide_body h d c db ≡ decide_row h d c a db
  decide_body_row a db found fresh = decide_body_first db fresh ∙ first_decision_found a db found

  -- A raise in the body comes back, and the tables are as before.
  pub decide_raises :
      (db : Db) {e : Error}
      → (decide_body h d c db).0 ≡ err e
      → decide_approval h d c db ≡ (err e, db)
  unfolding decide_approval
  decide_raises db e = immediate_transaction-raise (decide_body h d c) db e

  pub decide_returns :
      (db : Db) {r : DecideResult}
      → (decide_body h d c db).0 ≡ ok r
      → decide_approval h d c db ≡ decide_body h d c db
  unfolding decide_approval
  decide_returns db e = immediate_transaction-ok (decide_body h d c) db e

  -- A decision under a new key that passes the guards is applied, if no row has the ids that are
  -- drawn for the decision and its audit event.
  pub decide_accepts :
      (a : ApprovalRow) (db : Db)
      → get_approval c.approval_id db ≡ some a
      → get_decision c.idempotency_key db ≡ none
      → Admits d c a
      → IsFreshRow d db
      → IsFreshEvent d db
      → (decide_approval h d c db).0 ≡ ok (receipt h d c a)
  decide_accepts a db found fresh admits row event =
      let same = decide_body_row a db found fresh ∙ decide_row-Admits a db admits in
      let returned = record_decision_returns a db admits fresh row event in
      let e : (decide_body h d c db).0 ≡ ok (receipt h d c a) = rw same returned in
      rw (decide_returns db e) e

  elapsed_raises :
      (a : ApprovalRow) (db : Db)
      → (a.state ≡ pending) × (a.expires_at ≤ d.now) ⊎ (a.state ≡ expired)
      → IsFreshEvent d db
      → (decide_row h d c a db).0 ≡ err (firewall approval_expired 409)
  unfolding decide_row expire audit move
  elapsed_raises a db late event = ground (
    arith,
    set_status-eq a.transaction_id expired
        (record db { approvals = update approval_key (moved a expired d) db.approvals }),
  )

  -- A decision on a pending row whose time is over, or on an expired row, fails with 409
  -- APPROVAL_EXPIRED, if the audit event has a new id. It leaves every table as it was: a pending
  -- row is still pending afterwards.
  pub decide_expired :
      (a : ApprovalRow) (db : Db)
      → get_approval c.approval_id db ≡ some a
      → get_decision c.idempotency_key db ≡ none
      → (a.state ≡ pending) × (a.expires_at ≤ d.now) ⊎ (a.state ≡ expired)
      → IsFreshEvent d db
      → decide_approval h d c db ≡ (err (firewall approval_expired 409), db)
  decide_expired a db found fresh late event =
      decide_raises db (rw (decide_body_row a db found fresh) (elapsed_raises a db late event))

  -- Why a decision on the row `a`, while its time is not over, is refused with the error `e`.
  pub data Refusal (a : ApprovalRow) (e : Error) : Type 0 where
    closed :
        a.state ≢ pending
        → a.state ≢ expired
        → e ≡ firewall invalid_approval_state 409
        → Refusal a e
    own_request :
        a.state ≡ pending
        → c.reviewer_id ≡ a.creator_identity_id
        → e ≡ firewall self_approval_forbidden 403
        → Refusal a e
    no_reason :
        a.state ≡ pending
        → c.reviewer_id ≢ a.creator_identity_id
        → c.decision ≡ "DENY"
        → has_text c.note ≡ false
        → e ≡ firewall invalid_request 422
        → Refusal a e
    no_such_verb :
        a.state ≡ pending
        → c.reviewer_id ≢ a.creator_identity_id
        → c.decision ≢ "APPROVE"
        → c.decision ≢ "DENY"
        → e ≡ firewall invalid_request 400
        → Refusal a e

  decide_row_refuses :
      (a : ApprovalRow) (db : Db) {e : Error}
      → d.now < a.expires_at
      → Refusal a e
      → (decide_row h d c a db).0 ≡ err e
  unfolding decide_row
  decide_row_refuses a db t (closed p q r) = ground arith
  decide_row_refuses a db t (own_request p q r) =
      ground (arith, eq_iff c.reviewer_id a.creator_identity_id)
  decide_row_refuses a db t (no_reason p q r s u) =
      ground (arith, eq_iff c.reviewer_id a.creator_identity_id, eq_iff c.decision "DENY")
  decide_row_refuses a db t (no_such_verb p q r s u) = ground (
    arith,
    eq_iff c.reviewer_id a.creator_identity_id,
    eq_iff c.decision "APPROVE",
    eq_iff c.decision "DENY",
  )

  -- A decision under a new key on a row whose time is not over is refused, and changes nothing: by
  -- 409 INVALID_APPROVAL_STATE if the row is neither pending nor expired, by 403
  -- SELF_APPROVAL_FORBIDDEN to the row's creator, by 422 if it denies without a note that is not
  -- blank, and by 400 if it is neither APPROVE nor DENY.
  pub decide_refuses :
      (a : ApprovalRow) (db : Db) {e : Error}
      → get_approval c.approval_id db ≡ some a
      → get_decision c.idempotency_key db ≡ none
      → d.now < a.expires_at
      → Refusal a e
      → decide_approval h d c db ≡ (err e, db)
  decide_refuses a db found fresh t why =
      decide_raises db (rw (decide_body_row a db found fresh) (decide_row_refuses a db t why))
