-- ===== src/Approvals.antt =====
-- app/approvals.py, the parts that its operations share: the permitted transitions, the audit
-- event of a change, and the writes. Its operations are the modules below.
pub mod Create
pub mod Decide
pub mod Expiry
pub mod Payloads
pub mod Resume
pub mod Recovery
pub mod Effects
pub mod Rows
pub mod Evolution
pub mod Lifecycle
pub mod Deliveries
pub mod Tests
use real_guard_v.Prelude.{
  ◌≡◌, ℕ, String, Bool, true, false, Option, none, some, List, [], ◌∷◌, ◌++◌, str_eq, ltb, ◌==◌,
  if◌then◌else◌, is_some, any, ◌||◌,
}
use real_guard_v.Json.{Json, str, Fields, field, obj}
use real_guard_v.Errors.{
  Result, ok, err, Error, firewall_error, integrity_error, invalid_approval_state,
}
use real_guard_v.Store.{
  Db, ApprovalRow, DecisionRow, AuditEventRow, ApprovalState, pending, approved, resuming, denied,
  expired, cancelled, completed, failed,
}
use real_guard_v.Store.Tx.{
  Tx, pure, raise, lift, modify, ◌>>=◌, ◌>>◌, get_transaction, get_decision, save_approval,
  save_transaction,
}

-- The digests of app/approvals.py and app/materialargs.py: SHA-256 of the empty text, of a hash
-- followed by a canonical payload, and of a canonical value.
pub record Hashing : Type 0 where
  pub genesis : String
  pub chain : String → Json → String
  pub digest : Json → String

-- What the clock and `new_id` return in one transaction: the time at its start, the later
-- readings that go into `updated_at` and the audit event, and the ids of new rows.
pub record Draws : Type 0 where
  pub now : ℕ
  pub updated : ℕ
  pub logged : ℕ
  pub row_id : String
  pub key : String
  pub event_id : ℕ

abbrev pub state_name : ApprovalState → String
state_name pending = "PENDING"
state_name approved = "APPROVED"
state_name resuming = "RESUMING"
state_name denied = "DENIED"
state_name expired = "EXPIRED"
state_name cancelled = "CANCELLED"
state_name completed = "COMPLETED"
state_name failed = "FAILED"

-- `ALLOWED_TRANSITIONS`
abbrev pub is_allowed : ApprovalState → ApprovalState → Bool
is_allowed pending approved = true
is_allowed pending denied = true
is_allowed pending expired = true
is_allowed pending cancelled = true
is_allowed approved resuming = true
is_allowed approved expired = true
is_allowed resuming completed = true
is_allowed resuming denied = true
is_allowed resuming approved = true
is_allowed _ _ = false

abbrev pub is_pending : ApprovalState → Bool
is_pending pending = true
is_pending _ = false

abbrev pub is_approved : ApprovalState → Bool
is_approved approved = true
is_approved _ = false

abbrev pub is_resuming : ApprovalState → Bool
is_resuming resuming = true
is_resuming _ = false

abbrev pub is_expired : ApprovalState → Bool
is_expired expired = true
is_expired _ = false

abbrev pub is_completed : ApprovalState → Bool
is_completed completed = true
is_completed _ = false

-- `_transition`
unfoldable pub transition : ApprovalRow → ApprovalState → ℕ → Result ApprovalRow
transition r to_state updated =
    if is_allowed r.state to_state
    then ok (record r { state = to_state; updated_at = updated })
    else err (firewall_error invalid_approval_state none)

abbrev pub in_stream : String → AuditEventRow → Bool
in_stream approval_id e = elim e.approval_id [ none ↦ false | some a ↦ str_eq a approval_id ]

abbrev newer : AuditEventRow → Option AuditEventRow → Option AuditEventRow
newer e none = some e
newer e (some f) = if ltb e.id f.id then some f else some e

-- `filter_by(approval_id=...).order_by(AuditEventRow.id.desc()).first()`
pub latest_event : String → List AuditEventRow → Option AuditEventRow
latest_event approval_id [] = none
latest_event approval_id (e ∷ events) =
    let rest = latest_event approval_id events in
    if in_stream approval_id e then newer e rest else rest

abbrev pub prev_hash_of : String → Option AuditEventRow → String
prev_hash_of genesis none = genesis
prev_hash_of genesis (some e) = e.event_hash

abbrev pub insert_event : AuditEventRow → Tx (Unit {0})
insert_event e db =
    if any (λ (f : AuditEventRow). f.id == e.id) db.events
    then (err integrity_error, db)
    else (ok tt, record db { events = db.events ++ e ∷ [] })

pub record Actor : Type 0 where
  pub actor_type : String
  pub actor_id : String

abbrev pub system : String → Actor
system name = record { actor_type = "system"; actor_id = name }

module _ (h : Hashing) (d : Draws) where
  unfoldable pub audit_event :
      String → Option String → String → String → Actor → Json → Db → AuditEventRow
  unfolding latest_event
  audit_event approval_id transaction_id correlation_id event_type actor payload db =
      let prev_hash = prev_hash_of h.genesis (latest_event approval_id db.events) in
      record {
        id = d.event_id;
        transaction_id = transaction_id;
        approval_id = some approval_id;
        correlation_id = correlation_id;
        event_type = event_type;
        actor_type = actor.actor_type;
        actor_id = actor.actor_id;
        payload = payload;
        prev_hash = prev_hash;
        event_hash = h.chain prev_hash payload;
        created_at = d.logged;
      }

  -- `_audit`
  unfoldable pub audit : String → Option String → String → String → Actor → Json → Tx (Unit {0})
  unfolding audit_event
  audit approval_id transaction_id correlation_id event_type actor payload db =
      insert_event
        (audit_event approval_id transaction_id correlation_id event_type actor payload db) db

-- `{"from_state": ..., "to_state": ..., ...}`
abbrev pub change : ApprovalState → ApprovalState → Fields → Json
change from_state to_state more = obj (
    field "from_state" (str (state_name from_state))
      (field "to_state" (str (state_name to_state)) more))

-- `_transition(approval, to_state); session.add(approval)`
unfoldable pub move : ApprovalRow → ApprovalState → ℕ → Tx ApprovalRow
unfolding transition
move r to_state updated = do
  r' ← lift (transition r to_state updated)
  modify (save_approval r')
  pure r'

-- `txn = session.get(TransactionRow, ...); if txn is not None: txn.status = ...; session.add(txn)`
unfoldable pub set_status : String → ApprovalState → Tx (Unit {0})
set_status transaction_id status db = elim (get_transaction transaction_id db) [
  | none ↦ (ok tt, db)
  | some t ↦ (ok tt, save_transaction (record t { status = status }) db)
]

abbrev pub insert_decision : DecisionRow → Tx (Unit {0})
insert_decision r db =
    if is_some (get_decision r.idempotency_key db)
      || any (λ (s : DecisionRow). str_eq s.id r.id) db.decisions
    then (err integrity_error, db)
    else (ok tt, record db { decisions = db.decisions ++ r ∷ [] })

abbrev pub require : {A : Type 0} → Option A → Error → Tx A
require none e = raise e
require (some a) e = pure a

-- No audit event, and no decision, has the id that is drawn for a new one.
abbrev pub IsFreshEvent : Draws → Db → Type 0
IsFreshEvent d db = any (λ (f : AuditEventRow). f.id == d.event_id) db.events ≡ false

abbrev pub IsFreshRow : Draws → Db → Type 0
IsFreshRow d db = any (λ (s : DecisionRow). str_eq s.id d.row_id) db.decisions ≡ false
