-- ===== src/Approvals/Tests.antt =====
-- Tests of the sweep, the recovery and the life of the tables of app/approvals.py.
use real_guard_v.Prelude.{
  ℕ, ◌+◌, ◌≡◌, ◌≢◌, refl, true, false, some, [], ◌∷◌, String, length, filter, if◌then◌else◌, ltb,
  arith, eq_iff,
}
use real_guard_v.Store.{Db, ApprovalRow, approved, expired, resuming, failed}
use real_guard_v.Store.Tx.{get_approval, immediate_transaction}
use real_guard_v.Store.Table.{find, update}
use real_guard_v.Approvals.{Draws, audit, move, transition, set_status, audit_event, is_resuming}
use real_guard_v.Approvals.Create.{new_approval, new_transaction, create_approval, create_body}
use real_guard_v.Approvals.Decide.{decide_approval}
use real_guard_v.Approvals.Decide.Tests.{hashing, draws, request, waiting, one_waiting, approve}
use real_guard_v.Approvals.Expiry.{sweep_expired, sweep_body, expire_rows, expire_row, is_elapsed}
use real_guard_v.Json.{obj, end, str}
use real_guard_v.Errors.{ok, err, type_error}
use real_guard_v.Schemas.{allow, unchanged}
use real_guard_v.Materialargs.{compute_material_args_hash}
use real_guard_v.Approvals.Deliveries.{Delivered, finish_finished, finish-mismatch}
use real_guard_v.Approvals.Payloads.{first_choice}
use real_guard_v.Approvals.Resume.{
  claim_resume, Claim, Upstream, finish_resume, deliver, conclude, complete_body, set_response,
  recomputed_hash, finished,
}
use real_guard_v.Approvals.Recovery.{
  reconcile_resuming_on_startup, recovery_body, recover_rows, recover_row,
}
use real_guard_v.Approvals.Rows.{IsSanctioned}
use real_guard_v.Approvals.Evolution.Sweeps.{sweep_exact, reconcile_exact}
use real_guard_v.Approvals.Lifecycle.{
  stay, then_step, create, decide, sweep, claim, empty_db, Reach-IsSanctioned, final_kept,
}

abbrev after_decision : Db
after_decision =
    (decide_approval hashing (draws 1) approve
      (create_approval hashing (draws 0) request empty_db).1).1

Reach-IsSanctioned_example : IsSanctioned after_decision
Reach-IsSanctioned_example =
    Reach-IsSanctioned hashing after_decision
      (then_step (then_step stay (create (draws 0) request)) (decide (draws 1) approve))

abbrev each : ℕ → Draws
each k = draws (2000000 + k)

sweep_exact_example :
    let db' = (sweep_expired hashing 2000000 each one_waiting).1 in
    (1 ≡ length (filter (is_elapsed 2000000) one_waiting.approvals))
    × ((k : String) (a : ApprovalRow)
        → get_approval k one_waiting ≡ some a
        → (is_elapsed 2000000 a ≡ true
            → (t : ℕ) × (get_approval a.id db'
                ≡ some (record a { state = expired; updated_at = t })))
          × (is_elapsed 2000000 a ≡ false → get_approval k db' ≡ some a))
unfolding find update sweep_expired sweep_body expire_rows expire_row is_elapsed
    immediate_transaction move transition set_status audit audit_event new_transaction
sweep_exact_example = sweep_exact hashing 2000000 each one_waiting (tt, tt) refl

-- A row that a crash left in RESUMING, at its first attempt.
abbrev one_resuming : Db
one_resuming = record one_waiting {
  approvals = record waiting { state = resuming; resume_attempts = 1 } ∷ [];
}

reconcile_exact_example :
    let db' = (reconcile_resuming_on_startup hashing 3 50 each one_resuming).1 in
    (1 ≡ length (filter (λ (a : ApprovalRow). is_resuming a.state) one_resuming.approvals))
    × ((k : String) (a : ApprovalRow)
        → get_approval k one_resuming ≡ some a
        → (a.state ≡ resuming
            → (t : ℕ) × (get_approval a.id db'
                ≡ some (record a {
                  state = if ltb a.resume_attempts 3 then approved else failed;
                  updated_at = t;
                })))
          × (a.state ≢ resuming → get_approval k db' ≡ some a))
unfolding find update reconcile_resuming_on_startup recovery_body recover_rows recover_row
    immediate_transaction set_status audit audit_event
reconcile_exact_example = reconcile_exact hashing 3 50 each one_resuming (tt, tt) refl

-- The tables after a sweep of a request whose time is over, and after a claim of its row.
abbrev after_sweep : Db
after_sweep =
    (sweep_expired hashing 2000000 each (create_approval hashing (draws 0) request empty_db).1).1

abbrev after_claim : Db
after_claim = (claim_resume hashing (draws 3000000) "apr_1" after_sweep).1

final_kept_example :
    get_approval "apr_1" after_claim
    ≡ some (record waiting { state = expired; updated_at = 2000011 })
unfolding find update sweep_expired sweep_body expire_rows expire_row is_elapsed
    immediate_transaction move transition set_status audit audit_event create_approval create_body
    new_transaction new_approval
final_kept_example =
    final_kept hashing after_sweep after_claim "apr_1"
      (record waiting { state = expired; updated_at = 2000011 })
      (then_step (then_step stay (create (draws 0) request)) (sweep 2000000 each))
      (then_step stay (claim (draws 3000000) "apr_1")) refl refl

-- A claim of the row that was left in RESUMING, and an upstream that answers at once.
abbrev claimed : Claim
claimed = record {
  approval_id = "apr_1";
  transaction_id = "txn_1";
  payload = obj end;
  stored_hash = "h";
}

abbrev upstream : Upstream
upstream = record {
  complete = λ payload. ok (obj end);
  guard = λ content prompt response. ok (record {
    verdict = allow;
    transformation = unchanged;
    reason_codes = [];
    sanitized_content = str "";
  });
}

finish_finished_example :
    Delivered hashing upstream false
      (draws 60)
      claimed
      one_resuming
      (finish_resume hashing upstream false (draws 60) claimed one_resuming).1
unfolding find update finish_resume deliver conclude complete_body set_response recomputed_hash
    compute_material_args_hash immediate_transaction transition audit audit_event first_choice
finish_finished_example =
    finish_finished hashing upstream false (draws 60) claimed one_resuming refl

-- The same claim with another hash, and an upstream that fails.
abbrev stale : Claim
stale = record claimed { stored_hash = "other" }

abbrev broken : Upstream
broken = record upstream { complete = λ payload. err type_error }

finish-mismatch_example :
    (finish_resume hashing upstream false (draws 60) stale one_resuming
      ≡ finish_resume hashing broken false (draws 60) stale one_resuming)
    × ((finish_resume hashing upstream false (draws 60) stale one_resuming).0 ≢ ok finished)
unfolding recomputed_hash compute_material_args_hash
finish-mismatch_example =
    finish-mismatch hashing upstream broken false (draws 60) stale one_resuming
      (λ e. absurd (ground (arith, eq_iff "h" "other")))
