-- ===== src/Approvals/Effects.antt =====
-- What the shared writes of app/approvals.py leave behind, as equations between tables.
use real_guard_v.Prelude.{
  ◌≡◌, String, Option, none, some, List, [], ◌∷◌, ◌++◌, arith, str_eq, eq_iff, if◌then◌else◌,
}
use real_guard_v.Json.{Json}
use real_guard_v.Errors.{ok}
use real_guard_v.Store.{Db, TransactionRow, ApprovalRow, ApprovalState}
use real_guard_v.Store.Tx.{transaction_key, approval_key, get_approval}
use real_guard_v.Store.Table.{find, update, find-update}
use real_guard_v.Approvals.{Hashing, Draws, Actor, audit_event, set_status}

-- The transactions after `set_status`.
abbrev pub mirror : String → ApprovalState → List TransactionRow → List TransactionRow
mirror k status rows = elim (find transaction_key k rows) [
  | none ↦ rows
  | some t ↦ update transaction_key (record t { status = status }) rows
]

pub set_status-eq :
    (k : String) (status : ApprovalState) (db : Db)
    → set_status k status db ≡ (ok tt, record db { transactions = mirror k status db.transactions })
unfolding set_status
set_status-eq k status db = ground arith

-- The row after `_transition`.
abbrev pub moved : ApprovalRow → ApprovalState → Draws → ApprovalRow
moved a to_state d = record a { state = to_state; updated_at = d.updated }

-- The write of one approval row.
abbrev pub with_approval : ApprovalRow → Db → Db
with_approval r db = record db { approvals = update approval_key r db.approvals }

-- A row that is written over a row that is there is the one that is found.
pub get-with_approval :
    (k : String) (a r : ApprovalRow) (db : Db)
    → get_approval r.id db ≡ some a
    → get_approval k (with_approval r db) ≡ (if str_eq r.id k then some r else get_approval k db)
get-with_approval k a r db e =
    ground (arith, find-update approval_key k r db.approvals, eq_iff r.id k)

-- The tables after `_audit`.
abbrev pub log : Hashing → Draws → String → Option String → String → String → Actor → Json → Db → Db
log h d approval_id transaction_id correlation_id event_type actor payload db = record db {
  events =
      db.events
      ++ audit_event h d approval_id transaction_id correlation_id event_type actor payload db ∷ [];
}

-- The tables after `_transition`, `session.add` and the mirrored status.
abbrev pub after_move : ApprovalRow → ApprovalState → Draws → String → Db → Db
after_move a to_state d transaction_id db = record (with_approval (moved a to_state d) db) {
  transactions = mirror transaction_id to_state db.transactions;
}
