-- ===== src/Approvals/Create.antt =====
-- `create_approval` of app/approvals.py: the rows that are written before the caller is told to wait.
use real_guard_v.Prelude.{
  ℕ, ◌+◌, ◌*◌, String, Bool, Option, none, some, List, [], ◌∷◌, ◌++◌, map, str_eq, if◌then◌else◌,
  is_some, any, ◌||◌,
}
use real_guard_v.Json.{Json, str, arr, obj, end, field, from_list}
use real_guard_v.Errors.{ok, err, integrity_error}
use real_guard_v.Schemas.{
  Transformation, RiskLevel, no_risk, low, medium, high, critical, need_approval,
}
use real_guard_v.Store.{ApprovalRow, TransactionRow, pending}
use real_guard_v.Store.Tx.{Tx, pure, ◌>>◌, immediate_transaction, get_approval, get_transaction}
use real_guard_v.Approvals.{Hashing, Draws, system, audit}

-- The keyword arguments.
pub record Request : Type 0 where
  pub transaction_id : String
  pub request_id : String
  pub correlation_id : String
  pub creator_identity_id : String
  pub mode : String
  pub risk_level : RiskLevel
  pub reason_codes : List String
  pub policy_hits : List String
  pub transformation : Transformation
  pub policy_version : String
  pub preview_content : Json
  pub transformed_payload : Json
  pub material_args_hash : String
  pub ttl_seconds : ℕ
  pub retain_raw_content : Bool
  pub raw_request_content : Option Json

abbrev pub risk_name : RiskLevel → String
risk_name no_risk = "NONE"
risk_name low = "LOW"
risk_name medium = "MEDIUM"
risk_name high = "HIGH"
risk_name critical = "CRITICAL"

module _ (d : Draws) (q : Request) where
  unfoldable pub new_transaction : TransactionRow
  new_transaction = record {
    id = q.transaction_id;
    correlation_id = q.correlation_id;
    identity_id = q.creator_identity_id;
    request_id = q.request_id;
    final_verdict = need_approval;
    risk_level = q.risk_level;
    transformation = q.transformation;
    policy_version = q.policy_version;
    mode = q.mode;
    status = pending;
    material_args_hash = q.material_args_hash;
    request_content = if q.retain_raw_content then q.raw_request_content else none;
    response_content = none;
    created_at = d.now;
    completed_at = none;
  }

  unfoldable pub new_approval : ApprovalRow
  new_approval = record {
    id = d.row_id;
    transaction_id = q.transaction_id;
    state = pending;
    risk_level = q.risk_level;
    reason_codes = q.reason_codes;
    policy_hits = q.policy_hits;
    preview_content = q.preview_content;
    transformed_payload = q.transformed_payload;
    material_args_hash = q.material_args_hash;
    creator_identity_id = q.creator_identity_id;
    resume_attempts = 0;
    completion_result = none;
    expires_at = d.now + q.ttl_seconds * 1000000;
    created_at = d.now;
    updated_at = d.now;
  }

-- The primary keys and unique columns of the two tables.
abbrev pub insert_transaction : TransactionRow → Tx (Unit {0})
insert_transaction t db =
    if is_some (get_transaction t.id db)
      || any (λ (u : TransactionRow). str_eq u.request_id t.request_id) db.transactions
    then (err integrity_error, db)
    else (ok tt, record db { transactions = db.transactions ++ t ∷ [] })

abbrev pub insert_approval : ApprovalRow → Tx (Unit {0})
insert_approval r db =
    if is_some (get_approval r.id db)
      || any (λ (s : ApprovalRow). str_eq s.transaction_id r.transaction_id) db.approvals
    then (err integrity_error, db)
    else (ok tt, record db { approvals = db.approvals ++ r ∷ [] })

abbrev strings : List String → Json
strings xs = arr (from_list (map str xs))

module _ (h : Hashing) (d : Draws) (q : Request) where
  pub creation_payload : Json
  creation_payload = obj (
      field "reason_codes" (strings q.reason_codes) (
        field "policy_hits" (strings q.policy_hits) (
          field "risk_level" (str (risk_name q.risk_level))
            (field "creator_identity_id" (str q.creator_identity_id) end))))

  unfoldable pub create_body : Tx (ApprovalRow × TransactionRow)
  unfolding new_transaction new_approval creation_payload
  create_body = do
    insert_transaction (new_transaction d q)
    insert_approval (new_approval d q)
    audit h d (new_approval d q).id (some q.transaction_id) q.correlation_id "APPROVAL_CREATED"
        (system "gateway") creation_payload
    pure (new_approval d q, new_transaction d q)

  unfoldable pub create_approval : Tx (ApprovalRow × TransactionRow)
  unfolding create_body
  create_approval = immediate_transaction create_body
