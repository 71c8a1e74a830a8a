-- ===== src/Approvals/Decide.antt =====
-- `decide_approval` of app/approvals.py: a reviewer's decision on a pending approval.
pub mod Applied
pub mod Answers
pub mod Replays
pub mod Tests
use real_guard_v.Prelude.{
  String, Bool, true, false, not, ◌&&◌, Option, none, some, str_eq, leb, if◌then◌else◌,
}
use real_guard_v.Text.{has_ink}
use real_guard_v.Json.{Json, str, bool, obj, end, field}
use real_guard_v.Errors.{
  firewall_error, assertion_error, idempotency_conflict, approval_not_found, approval_expired,
  invalid_approval_state, self_approval_forbidden, invalid_request,
}
use real_guard_v.Store.{ApprovalRow, DecisionRow, ApprovalState, pending, approved, denied, expired}
use real_guard_v.Store.Tx.{
  Tx, pure, raise, gets, ◌>>=◌, ◌>>◌, immediate_transaction, get_approval, get_decision,
}
use real_guard_v.Approvals.{
  Hashing, Draws, system, is_pending, is_expired, audit, change, move, set_status, require,
  insert_decision, state_name,
}

pub data DecisionOutcome : Type 0 where
  applied replayed : DecisionOutcome

pub record DecideResult : Type 0 where
  pub outcome : DecisionOutcome
  pub approval : ApprovalRow
  pub decision_row : DecisionRow

-- The keyword arguments.
pub record Call : Type 0 where
  pub approval_id : String
  pub decision : String
  pub note : Option String
  pub reviewer_id : String
  pub idempotency_key : String
  pub correlation_id : String

abbrev pub is_empty : String → Bool
is_empty String.[] = true
is_empty _ = false

-- `note or None`
abbrev pub or_none : Option String → Option String
or_none none = none
or_none (some s) = if is_empty s then none else some s

abbrev pub same_note : Option String → Option String → Bool
same_note none none = true
same_note (some s) (some t) = str_eq s t
same_note _ _ = false

-- `note and note.strip()`
abbrev pub has_text : Option String → Bool
has_text none = false
has_text (some s) = has_ink s

-- `bool(note)`
abbrev pub is_given : Option String → Bool
is_given none = false
is_given (some s) = not (is_empty s)

-- Whether a stored decision came from the same key and body.
pub is_same_call : Call → DecisionRow → Bool
is_same_call c e =
    str_eq e.approval_id c.approval_id
    && str_eq e.decision c.decision
    && same_note (or_none e.note) (or_none c.note)

abbrev pub verdict_state : String → ApprovalState
verdict_state decision = if str_eq decision "APPROVE" then approved else denied

module _ (h : Hashing) (d : Draws) (c : Call) where
  pub replay : DecisionRow → Tx DecideResult
  replay e =
      if is_same_call c e
      then (do
        found ← gets (get_approval c.approval_id)
        approval ← require found assertion_error
        pure (record { outcome = replayed; approval = approval; decision_row = e }))
      else raise (firewall_error idempotency_conflict none)

  -- Expiry is enforced at decision time even if no sweep has run.
  expire : ApprovalRow → Tx DecideResult
  expire a = do
    move a expired d.updated
    set_status a.transaction_id expired
    audit h d a.id (some a.transaction_id) c.correlation_id "APPROVAL_EXPIRED_ON_DECISION"
        (system "gateway") (change pending expired end)
    raise (firewall_error approval_expired none)

  unfoldable pub decision_row_of : ApprovalRow → DecisionRow
  decision_row_of a = record {
    id = d.row_id;
    approval_id = c.approval_id;
    decision = c.decision;
    reviewer_id = c.reviewer_id;
    note = c.note;
    idempotency_key = c.idempotency_key;
    from_state = a.state;
    to_state = verdict_state c.decision;
    created_at = d.now;
  }

  pub decision_payload : ApprovalRow → Json
  decision_payload a = obj (
      field "decision" (str c.decision) (
        field "from_state" (str (state_name a.state)) (
          field "to_state" (str (state_name (verdict_state c.decision))) (
            field "idempotency_key" (str c.idempotency_key)
              (field "note_present" (bool (is_given c.note)) end)))))

  record_decision : ApprovalRow → Tx DecideResult
  unfolding decision_row_of decision_payload
  record_decision a = do
    a' ← move a (verdict_state c.decision) d.updated
    insert_decision (decision_row_of a)
    set_status a.transaction_id (verdict_state c.decision)
    audit h d a.id (some a.transaction_id) c.correlation_id "APPROVAL_DECIDED"
        (record { actor_type = "reviewer"; actor_id = c.reviewer_id }) (decision_payload a)
    pure (record { outcome = applied; approval = a'; decision_row = decision_row_of a })

  -- The guards on a row that was found, in the order of the code.
  decide_row : ApprovalRow → Tx DecideResult
  unfolding expire record_decision
  decide_row a db =
      if is_pending a.state && leb a.expires_at d.now
      then expire a db
      else if is_expired a.state
      then raise (firewall_error approval_expired none) db
      else if not (is_pending a.state)
      then raise (firewall_error invalid_approval_state none) db
      else if str_eq c.reviewer_id a.creator_identity_id
      then raise (firewall_error self_approval_forbidden none) db
      else if str_eq c.decision "DENY" && not (has_text c.note)
      then raise (firewall_error invalid_request (some 422)) db
      else if not (str_eq c.decision "APPROVE") && not (str_eq c.decision "DENY")
      then raise (firewall_error invalid_request (some 400)) db
      else record_decision a db

  first_decision : Tx DecideResult
  unfolding decide_row
  first_decision = do
    found ← gets (get_approval c.approval_id)
    a ← require found (firewall_error approval_not_found none)
    decide_row a

  unfoldable pub decide_body : Tx DecideResult
  unfolding replay first_decision
  decide_body = do
    existing ← gets (get_decision c.idempotency_key)
    elim existing [ some e ↦ replay e | none ↦ first_decision ]

  unfoldable pub decide_approval : Tx DecideResult
  unfolding decide_body
  decide_approval = immediate_transaction decide_body
