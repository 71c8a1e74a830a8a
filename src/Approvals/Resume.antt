-- ===== src/Approvals/Resume.antt =====
-- `resume_approved` of app/approvals.py: the claim of an approved row, the check of its material
-- arguments, the upstream call, the output guard, and the completion. The provider is a parameter;
-- the output guard is an argument here.
use real_guard_v.Prelude.{
  ◌+◌, String, Bool, not, Option, none, some, List, str_eq, leb, if◌then◌else◌, map,
}
use real_guard_v.Json.{Json, null, str, num, pos, arr, end, field, Fields, get_or, from_list}
use real_guard_v.Materialargs.{compute_material_args_hash}
use real_guard_v.Errors.{Result, ok, assertion_error}
use real_guard_v.Schemas.{
  Verdict, is_deny, Transformation, unchanged, redact, mask, sanitize, rewrite, truncate,
}
use real_guard_v.Store.{
  Db, ApprovalRow, DecisionRow, approved, resuming, denied, completed, expired,
}
use real_guard_v.Store.Tx.{
  Tx, pure, lift, gets, modify, ◌>>=◌, ◌>>◌, immediate_transaction, get_approval, get_transaction,
  save_approval, save_transaction,
}
use real_guard_v.Approvals.{
  Hashing, Draws, system, is_approved, audit, change, transition, move, set_status, require,
  insert_decision,
}
use real_guard_v.Approvals.Payloads.{
  payload_messages, system_prompt_text_from_messages, first_choice, content_of, sanitized_response,
}

pub data ResumeOutcome : Type 0 where
  finished denied_arguments_changed denied_output_guard not_eligible : ResumeOutcome

-- What the claim hands to the work outside the lock.
pub record Claim : Type 0 where
  pub approval_id : String
  pub transaction_id : String
  pub payload : Json
  pub stored_hash : String

-- What `run_output_guard` returns, as far as the resume reads it.
pub record GuardResult : Type 0 where
  pub verdict : Verdict
  pub transformation : Transformation
  pub reason_codes : List String
  pub sanitized_content : Json

pub record Upstream : Type 0 where
  -- `provider.complete`
  pub complete : Json → Result Json
  -- `run_output_guard(content, system prompt, response)`
  pub guard : Json → String → Json → Result GuardResult

abbrev pub transformation_name : Transformation → String
transformation_name unchanged = "NONE"
transformation_name redact = "REDACT"
transformation_name mask = "MASK"
transformation_name sanitize = "SANITIZE"
transformation_name rewrite = "REWRITE"
transformation_name truncate = "TRUNCATE"

module _ (h : Hashing) (d : Draws) where
  -- An approved row that is still in time.
  unfoldable pub claim_live : ApprovalRow → Tx (Option Claim)
  claim_live a = do
    moved ← lift (transition a resuming d.updated)
    let a' = record moved { resume_attempts = moved.resume_attempts + 1 }
    modify (save_approval a')
    audit h d a.id (some a.transaction_id) a.transaction_id "RESUME_CLAIMED"
        (system "resume_worker")
        (change a.state resuming (field "attempt" (num (pos a'.resume_attempts)) end))
    pure (
        some (record {
          approval_id = a.id;
          transaction_id = a.transaction_id;
          payload = a.transformed_payload;
          stored_hash = a.material_args_hash;
        }))

  unfoldable pub claim_elapsed : ApprovalRow → Tx (Option Claim)
  claim_elapsed a = do
    move a expired d.updated
    set_status a.transaction_id expired
    audit h d a.id (some a.transaction_id) a.transaction_id "APPROVAL_EXPIRED_BEFORE_RESUME"
        (system "resume_worker") (change approved expired end)
    pure none

  unfoldable pub claim_found : Option ApprovalRow → Tx (Option Claim)
  claim_found none db = pure none db
  claim_found (some a) db =
      if not (is_approved a.state)
      then pure none db
      else if leb a.expires_at d.now
      then claim_elapsed a db
      else claim_live a db

  unfoldable pub claim_body : String → Tx (Option Claim)
  claim_body approval_id = do found ← gets (get_approval approval_id); claim_found found

  -- The first transaction: APPROVED -> RESUMING, by one caller only.
  unfoldable pub claim_resume : String → Tx (Option Claim)
  claim_resume approval_id = immediate_transaction (claim_body approval_id)

  pub system_decision : String → String → DecisionRow
  system_decision approval_id note = record {
    id = d.row_id;
    approval_id = approval_id;
    decision = "DENY";
    reviewer_id = "system";
    note = some note;
    idempotency_key = d.key;
    from_state = resuming;
    to_state = denied;
    created_at = d.logged;
  }

  -- The two refusals after the claim write the same rows.
  unfoldable pub refuse_body : Claim → String → String → Fields → Tx (Unit {0})
  unfolding system_decision
  refuse_body c note event_type more = do
    found ← gets (get_approval c.approval_id)
    a ← require found assertion_error
    move a denied d.updated
    insert_decision (system_decision c.approval_id note)
    set_status c.transaction_id denied
    audit h d c.approval_id (some c.transaction_id) c.transaction_id event_type
        (system "resume_worker") (change resuming denied more)

  unfoldable pub set_response : Bool → Claim → Json → Tx (Unit {0})
  set_response retain c response db = elim (get_transaction c.transaction_id db) [
    | none ↦ (ok tt, db)
    | some t ↦ (
      ok tt,
      save_transaction
          (record t {
            status = completed;
            completed_at = some d.logged;
            response_content = if retain then some response else t.response_content;
          })
          db,
    )
  ]

  unfoldable pub complete_body : Bool → Claim → Json → Transformation → Tx (Unit {0})
  complete_body retain c response transformation = do
    found ← gets (get_approval c.approval_id)
    a ← require found assertion_error
    moved ← lift (transition a completed d.updated)
    modify (save_approval (record moved { completion_result = some response }))
    set_response retain c response
    audit h d c.approval_id (some c.transaction_id) c.transaction_id "RESUME_COMPLETED"
        (system "resume_worker")
        (change resuming completed
          (field "output_transformation" (str (transformation_name transformation)) end))

module _ (h : Hashing) (d : Draws) where
  abbrev pub refuse : Claim → String → String → Fields → Tx (Unit {0})
  refuse c note event_type more = immediate_transaction (refuse_body h d c note event_type more)

  abbrev pub complete : Bool → Claim → Json → Transformation → Tx (Unit {0})
  complete retain c response transformation =
      immediate_transaction (complete_body h d retain c response transformation)

unfoldable pub recomputed_hash : Hashing → Claim → String
unfolding compute_material_args_hash
recomputed_hash h c =
    compute_material_args_hash h.digest (payload_messages c.payload) (get_or "tools" c.payload null)

module _ (h : Hashing) (u : Upstream) (retain : Bool) (d : Draws) where
  unfoldable pub conclude : Claim → Json → GuardResult → Db → Result ResumeOutcome × Db
  conclude c response g db =
      if is_deny g.verdict
      then (refuse h d c "OUTPUT_GUARD_DENIED" "RESUME_OUTPUT_GUARD_DENIED"
              (field "reason_codes" (arr (from_list (map str g.reason_codes))) end)
            >> pure denied_output_guard)
          db
      else (complete h d retain c (sanitized_response g.sanitized_content response) g.transformation
            >> pure finished)
          db

  unfoldable pub deliver : Claim → Tx ResumeOutcome
  unfolding first_choice system_prompt_text_from_messages
  deliver c = do
    response ← lift (u.complete c.payload)
    choice ← lift (first_choice response)
    g ← lift (
        u.guard (content_of choice) (system_prompt_text_from_messages (payload_messages c.payload))
          response)
    conclude c response g

  -- What follows a claim: outside the lock, but for the writes at its end.
  unfoldable pub finish_resume : Claim → Tx ResumeOutcome
  unfolding recomputed_hash
  finish_resume c db =
      if str_eq (recomputed_hash h c) c.stored_hash
      then deliver c db
      else (refuse h d c "ARGUMENTS_CHANGED" "RESUME_ARGUMENTS_CHANGED" end
            >> pure denied_arguments_changed)
          db

-- The two transactions of a resume draw from the clock one after the other.
unfoldable pub resume_approved :
    Hashing → Upstream → Bool → Draws → Draws → String → Tx ResumeOutcome
unfolding claim_resume finish_resume
resume_approved h u retain d d' approval_id = do
  claimed ← claim_resume h d approval_id
  elim claimed [ none ↦ pure not_eligible | some c ↦ finish_resume h u retain d' c ]
