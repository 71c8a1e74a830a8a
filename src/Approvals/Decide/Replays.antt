-- ===== src/Approvals/Decide/Replays.antt =====
-- The answers of `decide_approval` under an idempotency key that was used before.
use real_guard_v.Prelude.{
  ◌≡◌, ◌∙◌, refl, String, Bool, true, false, ◌&&◌, none, some, arith, eq_iff, str_eq, Option, ap,
  Bool-cases, inl, inr,
}
use real_guard_v.Errors.{Result, ok, err, firewall, idempotency_conflict}
use real_guard_v.Store.{Db, ApprovalRow, DecisionRow}
use real_guard_v.Store.Tx.{get_approval, get_decision}
use real_guard_v.Approvals.{Hashing, Draws}
use real_guard_v.Approvals.Decide.{
  Call, DecideResult, replayed, decide_body, decide_approval, replay, is_same_call, same_note,
  or_none,
}
use real_guard_v.Approvals.Decide.Answers.{decide_raises, decide_returns, decide_body_used}

-- A recorded decision with the approval, the verb and the note of a call; an empty note is none.
abbrev pub Agrees : Call → DecisionRow → Type 0
Agrees c row =
    (row.approval_id ≡ c.approval_id)
    × (row.decision ≡ c.decision)
    × (or_none row.note ≡ or_none c.note)

same_note-eq :
    (m n : Option String) → (same_note m n ≡ true → m ≡ n) × (m ≡ n → same_note m n ≡ true)
same_note-eq none none = (λ e. refl, λ e. refl)
same_note-eq none (some t) = (λ e. cc, λ e. cc)
same_note-eq (some s) none = (λ e. cc, λ e. cc)
same_note-eq (some s) (some t) = (λ e. ap some ((eq_iff s t).0 e), λ e. (eq_iff s t).1 (cc e))

Agrees-same : (c : Call) (row : DecisionRow) → Agrees c row → is_same_call c row ≡ true
unfolding is_same_call
Agrees-same c row (approval, decision, note) =
    rw
      (
        (eq_iff row.approval_id c.approval_id).1 approval,
        (eq_iff row.decision c.decision).1 decision,
      )
      ((same_note-eq (or_none row.note) (or_none c.note)).1 note)

same-Agrees : (c : Call) (row : DecisionRow) → is_same_call c row ≡ true → Agrees c row
unfolding is_same_call
same-Agrees c row e =
    let (approval, decision, note) =
      all_three (str_eq row.approval_id c.approval_id) (str_eq row.decision c.decision)
        (same_note (or_none row.note) (or_none c.note)) e in
    (
      (eq_iff row.approval_id c.approval_id).0 approval,
      (eq_iff row.decision c.decision).0 decision,
      (same_note-eq (or_none row.note) (or_none c.note)).0 note,
    )
  where
    all_three : (p q r : Bool) → (p && q && r) ≡ true → (p ≡ true) × (q ≡ true) × (r ≡ true)
    all_three p q r h = (ground arith, ground arith, ground arith)

module _ (h : Hashing) (d : Draws) (c : Call) (row : DecisionRow) (db : Db) where
  replay_same :
      (a : ApprovalRow)
      → is_same_call c row ≡ true
      → get_approval c.approval_id db ≡ some a
      → replay h d c row db
        ≡ (ok (record { outcome = replayed; approval = a; decision_row = row }), db)
  unfolding replay
  replay_same a same found = ground arith

  replay_other :
      is_same_call c row ≡ false → (replay h d c row db).0 ≡ err (firewall idempotency_conflict 409)
  unfolding replay
  replay_other other = ground arith

  -- Under a used key, a call that agrees with the decision on record gets that decision again, any
  -- other call an IDEMPOTENCY_CONFLICT, and nothing is written.
  pub decide_used :
      (a : ApprovalRow)
      → get_decision c.idempotency_key db ≡ some row
      → get_approval c.approval_id db ≡ some a
      → (Agrees c row
          → decide_approval h d c db
            ≡ (ok (record { outcome = replayed; approval = a; decision_row = row }), db))
        × ((Agrees c row → ⊥)
            → decide_approval h d c db ≡ (err (firewall idempotency_conflict 409), db))
  decide_used a used found = (
    λ agrees.
        let answer = replay_same a (Agrees-same c row agrees) found in
        decide_returns h d c db (ap (λ (p : Result DecideResult × Db). p.0) (body ∙ answer))
        ∙ body
        ∙ answer,
    λ differs. elim (Bool-cases (is_same_call c row)) [
      | inl same ↦ absurd (differs (same-Agrees c row same))
      | inr other ↦ decide_raises h d c db (rw body (replay_other other))
    ],
  )
    where
      body : decide_body h d c db ≡ replay h d c row db
      body = decide_body_used h d c row db used
