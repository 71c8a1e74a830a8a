-- ===== src/Approvals/Recovery.antt =====
-- `reconcile_resuming_on_startup` of app/approvals.py: the rows that a crash left in RESUMING are
-- retried, or given up when their attempts are used up. (The metrics are left out.)
use real_guard_v.Prelude.{ℕ, ◌+◌, some, List, [], ◌∷◌, ltb, if◌then◌else◌, filter}
use real_guard_v.Json.{num, pos, end, field}
use real_guard_v.Store.{ApprovalRow, ApprovalState, approved, resuming, failed}
use real_guard_v.Store.Tx.{
  Tx, pure, gets, modify, ◌>>=◌, ◌>>◌, immediate_transaction, save_approval,
}
use real_guard_v.Approvals.{Hashing, Draws, system, is_resuming, audit, change, set_status}

abbrev pub recovered_state : ℕ → ApprovalRow → ApprovalState
recovered_state max_resume_attempts a =
    if ltb a.resume_attempts max_resume_attempts then approved else failed

module _ (h : Hashing) (max_resume_attempts : ℕ) (now : ℕ) where
  -- The body of the loop: the state is set without `_transition`.
  unfoldable pub recover_row : Draws → ApprovalRow → Tx (Unit {0})
  recover_row d a = do
    let to_state = recovered_state max_resume_attempts a
    modify (save_approval (record a { state = to_state; updated_at = now }))
    set_status a.transaction_id to_state
    audit h d a.id (some a.transaction_id) a.transaction_id "STARTUP_RECONCILE" (system "startup")
        (change resuming to_state (field "resume_attempts" (num (pos a.resume_attempts)) end))

  unfoldable pub recover_rows : (ℕ → Draws) → ℕ → List ApprovalRow → Tx ℕ
  recover_rows draws count [] = pure count
  recover_rows draws count (a ∷ stuck) = do
    recover_row (draws count) a
    recover_rows draws (count + 1) stuck

  unfoldable pub recovery_body : (ℕ → Draws) → Tx ℕ
  recovery_body draws = do
    stuck ← gets (λ db. filter (λ (a : ApprovalRow). is_resuming a.state) db.approvals)
    recover_rows draws 0 stuck

  unfoldable pub reconcile_resuming_on_startup : (ℕ → Draws) → Tx ℕ
  reconcile_resuming_on_startup draws = immediate_transaction (recovery_body draws)
