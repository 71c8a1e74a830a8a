-- ===== src/Approvals/Expiry.antt =====
-- `sweep_expired` of app/approvals.py: the elapsed rows become EXPIRED. (The metrics are left out.)
use real_guard_v.Prelude.{ℕ, ◌+◌, ◌&&◌, ◌||◌, Bool, some, List, [], ◌∷◌, leb, filter}
use real_guard_v.Json.{end}
use real_guard_v.Store.{ApprovalRow, expired}
use real_guard_v.Store.Tx.{Tx, pure, gets, ◌>>=◌, ◌>>◌, immediate_transaction}
use real_guard_v.Approvals.{
  Hashing, Draws, system, is_pending, is_approved, audit, change, move, set_status,
}

-- `state.in_(["PENDING", "APPROVED"])` and `expires_at <= now`
unfoldable pub is_elapsed : ℕ → ApprovalRow → Bool
is_elapsed now r = (is_pending r.state || is_approved r.state) && leb r.expires_at now

module _ (h : Hashing) where
  -- The body of the loop, on one candidate.
  unfoldable pub expire_row : Draws → ApprovalRow → Tx (Unit {0})
  expire_row d a = do
    move a expired d.updated
    set_status a.transaction_id expired
    audit h d a.id (some a.transaction_id) a.transaction_id "APPROVAL_EXPIRED_SWEEP"
        (system "sweeper") (change a.state expired end)

  -- `draws k` is what the clock and `new_id` return for the k-th candidate.
  unfoldable pub expire_rows : (ℕ → Draws) → ℕ → List ApprovalRow → Tx ℕ
  expire_rows draws count [] = pure count
  expire_rows draws count (a ∷ candidates) = do
    expire_row (draws count) a
    expire_rows draws (count + 1) candidates

  unfoldable pub sweep_body : ℕ → (ℕ → Draws) → Tx ℕ
  unfolding is_elapsed
  sweep_body now draws = do
    candidates ← gets (λ db. filter (is_elapsed now) db.approvals)
    expire_rows draws 0 candidates

  unfoldable pub sweep_expired : ℕ → (ℕ → Draws) → Tx ℕ
  sweep_expired now draws = immediate_transaction (sweep_body now draws)
