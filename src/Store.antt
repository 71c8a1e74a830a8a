-- ===== src/Store.antt =====
-- app/db.py: the tables that the approval workflow writes, and the transaction that it writes in.
-- A row is a record, a table the list of its rows in insertion order. Identifiers are strings; an
-- audit event is identified by the number that its id spells, since the code orders
-- events by id. Times are microseconds since the epoch.
pub mod Table
pub mod Tx
use real_guard_v.Prelude.{ℕ, String, Option, List}
use real_guard_v.Json.{Json}
use real_guard_v.Schemas.{Verdict, Transformation, RiskLevel}

-- `APPROVAL_STATES`; a transaction's status mirrors its approval's state.
pub data ApprovalState : Type 0 where
  pending approved resuming denied expired cancelled completed failed : ApprovalState

pub record TransactionRow : Type 0 where
  pub id : String
  pub correlation_id : String
  pub identity_id : String
  pub request_id : String
  pub final_verdict : Verdict
  pub risk_level : RiskLevel
  pub transformation : Transformation
  pub policy_version : String
  pub mode : String
  pub status : ApprovalState
  pub material_args_hash : String
  pub request_content : Option Json
  pub response_content : Option Json
  pub created_at : ℕ
  pub completed_at : Option ℕ

pub record ApprovalRow : Type 0 where
  pub id : String
  pub transaction_id : String
  pub state : ApprovalState
  pub risk_level : RiskLevel
  pub reason_codes : List String
  pub policy_hits : List String
  pub preview_content : Json
  pub transformed_payload : Json
  pub material_args_hash : String
  pub creator_identity_id : String
  pub resume_attempts : ℕ
  pub completion_result : Option Json
  pub expires_at : ℕ
  pub created_at : ℕ
  pub updated_at : ℕ

pub record DecisionRow : Type 0 where
  pub id : String
  pub approval_id : String
  pub decision : String
  pub reviewer_id : String
  pub note : Option String
  pub idempotency_key : String
  pub from_state : ApprovalState
  pub to_state : ApprovalState
  pub created_at : ℕ

pub record AuditEventRow : Type 0 where
  pub id : ℕ
  pub transaction_id : Option String
  pub approval_id : Option String
  pub correlation_id : String
  pub event_type : String
  pub actor_type : String
  pub actor_id : String
  pub payload : Json
  pub prev_hash : String
  pub event_hash : String
  pub created_at : ℕ

pub record Db : Type 0 where
  pub transactions : List TransactionRow
  pub approvals : List ApprovalRow
  pub decisions : List DecisionRow
  pub events : List AuditEventRow
