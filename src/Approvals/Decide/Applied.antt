-- ===== src/Approvals/Decide/Applied.antt =====
-- What a decision that is applied has checked and written.
use real_guard_v.Prelude.{
  ◌∙◌, none, Option-cases, inl, inr, ◌≡◌, ◌≢◌, ◌⊎◌, ◌<◌, true, some, arith, eq_iff, [], ◌∷◌, ◌++◌,
  sym, ap,
}
use real_guard_v.Errors.{ok, Result, Error, err, Result-cases}
use real_guard_v.Store.{DecisionRow, Db, ApprovalRow, pending}
use real_guard_v.Store.Tx.{
  get_approval, get_decision, immediate_transaction-0, immediate_transaction-ok, approval_key,
  immediate_transaction-raise,
}
use real_guard_v.Store.Table.{update}
use real_guard_v.Approvals.{Hashing, Draws, audit, move, audit_event}
use real_guard_v.Approvals.Effects.{mirror, set_status-eq, moved}
use real_guard_v.Approvals.Decide.{
  decide_body, decide_approval, first_decision, replay, replayed, Call, DecideResult, applied,
  verdict_state, has_text, decide_row, record_decision, expire, decision_row_of, decision_payload,
}

-- The guards that a decision passes before it is recorded.
pub record Admits (d : Draws) (c : Call) (a : ApprovalRow) : Type 0 where
  pub is_open : a.state ≡ pending
  pub in_time : d.now < a.expires_at
  pub by_another : c.reviewer_id ≢ a.creator_identity_id
  pub verb : (c.decision ≡ "APPROVE") ⊎ ((c.decision ≡ "DENY") × (has_text c.note ≡ true))

module _ (h : Hashing) (d : Draws) (c : Call) where
  -- The tables after a decision on the row `a`.
  abbrev pub before_audit : ApprovalRow → Db → Db
  before_audit a db = record db {
    approvals = update approval_key (moved a (verdict_state c.decision) d) db.approvals;
    decisions = db.decisions ++ decision_row_of h d c a ∷ [];
    transactions = mirror a.transaction_id (verdict_state c.decision) db.transactions;
  }

  abbrev pub decided : ApprovalRow → Db → Db
  decided a db = record (before_audit a db) {
    events =
        db.events
        ++ audit_event h d a.id (some a.transaction_id) c.correlation_id "APPROVAL_DECIDED"
            (record { actor_type = "reviewer"; actor_id = c.reviewer_id })
            (decision_payload h d c a) (before_audit a db)
          ∷ [];
  }

  abbrev pub receipt : ApprovalRow → DecideResult
  receipt a = record {
    outcome = applied;
    approval = moved a (verdict_state c.decision) d;
    decision_row = decision_row_of h d c a;
  }

  -- A call that returns from the guards has recorded the decision.
  decide_row_ok :
      (a : ApprovalRow) (db : Db) {r : DecideResult}
      → (decide_row h d c a db).0 ≡ ok r
      → Admits d c a × (decide_row h d c a db ≡ record_decision h d c a db)
  unfolding decide_row expire
  decide_row_ok a db e = ground (
    arith,
    eq_iff c.reviewer_id a.creator_identity_id,
    eq_iff c.decision "APPROVE",
    eq_iff c.decision "DENY",
  )

  record_decision_ok :
      (a : ApprovalRow) (db : Db) {r : DecideResult}
      → (record_decision h d c a db).0 ≡ ok r
      → record_decision h d c a db ≡ (ok (receipt a), decided a db)
  unfolding record_decision audit move
  record_decision_ok a db e = ground (
    arith,
    set_status-eq a.transaction_id (verdict_state c.decision)
        (record (before_audit a db) { transactions = db.transactions }),
  )

  first_decision_found :
      (a : ApprovalRow) (db : Db)
      → get_approval c.approval_id db ≡ some a
      → first_decision h d c db ≡ decide_row h d c a db
  unfolding first_decision
  first_decision_found a db e = ground arith

  first_decision_missing :
      (db : Db) {r : DecideResult}
      → (first_decision h d c db).0 ≡ ok r
      → get_approval c.approval_id db ≢ none
  unfolding first_decision
  first_decision_missing db e = ground arith

  -- A first decision that returns.
  first_decision_ok :
      (db : Db) {r : DecideResult}
      → (first_decision h d c db).0 ≡ ok r
      → (a : ApprovalRow) × (get_approval c.approval_id db ≡ some a)
        × Admits d c a
        × (first_decision h d c db ≡ (ok (receipt a), decided a db))
  first_decision_ok db {r} e = elim (Option-cases (get_approval c.approval_id db)) [
    | inl missing ↦ absurd (first_decision_missing db e missing)
    | inr (a, found) ↦
        let same = first_decision_found a db found in
        let e' : (decide_row h d c a db).0 ≡ ok r = rw (← same) e in
        let (admits, recorded) = decide_row_ok a db e' in
        let e'' : (record_decision h d c a db).0 ≡ ok r = rw (← recorded) e' in
        (a, found, admits, same ∙ recorded ∙ record_decision_ok a db e'')
  ]

  replay_outcome :
      (row : DecisionRow) (db : Db) {r : DecideResult}
      → (replay h d c row db).0 ≡ ok r
      → r.outcome ≡ replayed
  unfolding replay
  replay_outcome row db e = ground arith

  decide_body_first :
      (db : Db)
      → get_decision c.idempotency_key db ≡ none
      → decide_body h d c db ≡ first_decision h d c db
  unfolding decide_body
  decide_body_first db e = ground arith

  decide_body-replay :
      (row : DecisionRow) (db : Db)
      → get_decision c.idempotency_key db ≡ some row
      → decide_body h d c db ≡ replay h d c row db
  unfolding decide_body
  decide_body-replay row db e = ground arith

  decide_body_applied :
      (db : Db) {r : DecideResult}
      → (decide_body h d c db).0 ≡ ok r
      → r.outcome ≡ applied
      → (get_decision c.idempotency_key db ≡ none)
        × ((first_decision h d c db).0 ≡ ok r)
        × (decide_body h d c db ≡ first_decision h d c db)
  decide_body_applied db {r} e o = elim (Option-cases (get_decision c.idempotency_key db)) [
    | inl fresh ↦ let same = decide_body_first db fresh in (fresh, rw (← same) e, same)
    | inr (row, used) ↦
        let same = decide_body-replay row db used in
        let e' : (replay h d c row db).0 ≡ ok r = rw (← same) e in
        let again : r.outcome ≡ replayed = replay_outcome row db e' in cc
  ]

  -- A decision that is applied was made under a key that was not used before, on a row that was
  -- pending and in time, by an identity other than the row's creator, with a verb that is APPROVE,
  -- or DENY with a note that is not blank. What it has written is exactly this: the row's new state
  -- and time, one decision row, the mirrored status of the transaction, and one audit event.
  pub decide_applied :
      (db : Db) {r : DecideResult}
      → (decide_approval h d c db).0 ≡ ok r
      → r.outcome ≡ applied
      → (a : ApprovalRow) × (get_approval c.approval_id db ≡ some a)
        × (get_decision c.idempotency_key db ≡ none)
        × Admits d c a
        × (decide_approval h d c db ≡ (ok (receipt a), decided a db))
  unfolding decide_approval
  decide_applied db {r} e o =
      let e' : (decide_body h d c db).0 ≡ ok r =
        sym (immediate_transaction-0 (decide_body h d c) db) ∙ e in
      let (fresh, returned, same) = decide_body_applied db e' o in
      let (a, found, admits, written) = first_decision_ok db returned in
      (a, found, fresh, admits, immediate_transaction-ok (decide_body h d c) db e' ∙ same ∙ written)

  replay_writes : (row : DecisionRow) (db : Db) → (replay h d c row db).1 ≡ db
  unfolding replay
  replay_writes row db = ground arith

  decide_returned :
      (db : Db) {r : DecideResult}
      → (decide_body h d c db).0 ≡ ok r
      → (decide_approval h d c db).1 ≡ (decide_body h d c db).1
  unfolding decide_approval
  decide_returned db e =
      ap (λ (p : Result DecideResult × Db). p.1) (immediate_transaction-ok (decide_body h d c) db e)

  decide_raised :
      (db : Db) {e : Error} → (decide_body h d c db).0 ≡ err e → (decide_approval h d c db).1 ≡ db
  unfolding decide_approval
  decide_raised db e =
      ap (λ (p : Result DecideResult × Db). p.1)
        (immediate_transaction-raise (decide_body h d c) db e)

  -- A call either writes nothing, or it records a decision on a row that passes the guards.
  pub decide_writes :
      (db : Db)
      → ((decide_approval h d c db).1 ≡ db)
        ⊎ ((a : ApprovalRow) × (get_approval c.approval_id db ≡ some a)
            × Admits d c a
            × ((decide_approval h d c db).1 ≡ decided a db))
  decide_writes db = elim (Result-cases (decide_body h d c db).0) [
    | inr (_, raised) ↦ inl (decide_raised db raised)
    | inl (r, e) ↦ elim (Option-cases (get_decision c.idempotency_key db)) [
      | inr (row, used) ↦ inl (
          decide_returned db e
          ∙ ap (λ (p : Result DecideResult × Db). p.1) (decide_body-replay row db used)
          ∙ replay_writes row db)
      | inl fresh ↦
          let same = decide_body_first db fresh in
          let (a, found, admits, written) = first_decision_ok db {r = r} (rw (← same) e) in
          inr (
            a,
            found,
            admits,
            decide_returned db e ∙ ap (λ (p : Result DecideResult × Db). p.1) (same ∙ written),
          )
    ]
  ]
