-- ===== src/Approvals/Lifecycle.antt =====
-- The life of the tables of app/approvals.py: any sequence of its operations, in any order and by
-- any number of workers, from empty tables. A resume is two steps, its claim and the work after it,
-- between which any other operations may run; the work after a claim may never run.
use real_guard_v.Prelude.{
  refl, ℕ, ◌≡◌, sym, String, Bool, true, false, Option, some, [], ◌∙◌, arith,
}
use real_guard_v.Store.{
  Db, ApprovalRow, DecisionRow, ApprovalState, denied, expired, cancelled, completed, failed,
}
use real_guard_v.Store.Tx.{get_approval, get_decision, decision_key}
use real_guard_v.Store.Table.{find, find-append}
use real_guard_v.Approvals.{Hashing, Draws}
use real_guard_v.Approvals.Create.{Request, create_approval}
use real_guard_v.Errors.{ok, err, firewall, idempotency_conflict}
use real_guard_v.Approvals.Decide.{Call, decide_approval, replayed}
use real_guard_v.Approvals.Decide.Replays.{Agrees, decide_used}
use real_guard_v.Approvals.Expiry.{sweep_expired}
use real_guard_v.Approvals.Resume.{Claim, Upstream, claim_resume, finish_resume}
use real_guard_v.Approvals.Recovery.{reconcile_resuming_on_startup}
use real_guard_v.Approvals.Rows.{
  Evolves, Evolves-refl, Evolves-trans, Changes, Change, here, next, born, turn, Edge, drawn,
  gave_up, Distinct, IsSanctioned,
}
use real_guard_v.Approvals.Evolution.Claims.{claim_resume-Evolves}
use real_guard_v.Approvals.Evolution.Resumes.{finish_resume-Evolves}
use real_guard_v.Approvals.Evolution.Decisions.{create_Evolves, decide_Evolves}
use real_guard_v.Approvals.Evolution.Sweeps.{sweep_Evolves, reconcile_Evolves}

abbrev pub empty_db : Db
empty_db = record { transactions = []; approvals = []; decisions = []; events = [] }

module _ (h : Hashing) where
  -- One operation, whatever it returns or raises.
  pub data Step (db : Db) : Db → Type 0 where
    create : (d : Draws) (q : Request) → Step db (create_approval h d q db).1
    decide : (d : Draws) (c : Call) → Step db (decide_approval h d c db).1
    sweep : (now : ℕ) (ds : ℕ → Draws) → Step db (sweep_expired h now ds db).1
    claim : (d : Draws) (k : String) → Step db (claim_resume h d k db).1
    finish :
        (u : Upstream) (retain : Bool) (d : Draws) (c : Claim)
        → Step db (finish_resume h u retain d c db).1
    restart :
        (limit now : ℕ) (ds : ℕ → Draws)
        → Step db (reconcile_resuming_on_startup h limit now ds db).1

  pub data Steps (db : Db) : Db → Type 0 where
    stay : Steps db db
    then_step : {e f : Db} → Steps db e → Step e f → Steps db f

  Step-Evolves : {db db' : Db} → Distinct db.approvals → Step db db' → Evolves db db'
  Step-Evolves {db} one (create d q) = create_Evolves h d q db
  Step-Evolves {db} one (decide d c) = decide_Evolves h d c db
  Step-Evolves {db} one (sweep now ds) = sweep_Evolves h now ds db one
  Step-Evolves {db} one (claim d k) = claim_resume-Evolves h d k db
  Step-Evolves {db} one (finish u retain d c) = finish_resume-Evolves h u retain d c db
  Step-Evolves {db} one (restart limit now ds) = reconcile_Evolves h limit now ds db one

  Steps-Evolves : {db db' : Db} → Distinct db.approvals → Steps db db' → Evolves db db'
  Steps-Evolves {db} one stay = Evolves-refl db
  Steps-Evolves one (then_step s t) =
      let before = Steps-Evolves one s in
      Evolves-trans before (Step-Evolves (before.distinct one) t)

  abbrev pub Reach : Db → Type 0
  Reach db = Steps empty_db db

  Reach-Distinct : {db : Db} → Reach db → Distinct db.approvals
  Reach-Distinct r = (Steps-Evolves tt r).distinct tt

  -- After any sequence of operations from empty tables, a row that is approved, resuming, completed
  -- or failed has a recorded decision to approve it, by a reviewer whose identity is not the one
  -- that created the row.
  pub Reach-IsSanctioned : (db : Db) → Reach db → IsSanctioned db
  unfolding find
  Reach-IsSanctioned db r =
      (Steps-Evolves tt r).sanctioned (λ k a found gated. absurd (ground arith))

  -- A row in a state without outgoing edges.
  abbrev pub is_final : ApprovalState → Bool
  is_final denied = true
  is_final expired = true
  is_final cancelled = true
  is_final completed = true
  is_final failed = true
  is_final _ = false

  final_stuck : (s t : ApprovalState) → is_final s ≡ true → Edge s t → ⊥
  final_stuck s t e (drawn allowed) = ground arith
  final_stuck s t e (gave_up here_ there) = ground arith

  no_Change :
      (a : ApprovalRow) {o o' : Option ApprovalRow}
      → o ≡ some a
      → is_final a.state ≡ true
      → Change o o'
      → ⊥
  no_Change a e final (born b old new p z) = cc
  no_Change a e final (turn b c old new edge n kept) =
      let is_b : some a ≡ some b = sym e ∙ old in
      let same : a ≡ b = cc is_b in final_stuck b.state c.state (rw same at final) edge

  final_Changes :
      (a : ApprovalRow) {o o' : Option ApprovalRow}
      → o ≡ some a
      → is_final a.state ≡ true
      → Changes o o'
      → o' ≡ some a
  final_Changes a e final here = e
  final_Changes a e final (next s c) = absurd (no_Change a (final_Changes a e final s) final c)

  -- After any operations from a reachable state, a row in a final state is exactly as it was: no
  -- later decision, sweep, resume or restart changes a column of it.
  pub final_kept :
      (db db' : Db) (k : String) (a : ApprovalRow)
      → Reach db
      → Steps db db'
      → get_approval k db ≡ some a
      → is_final a.state ≡ true
      → get_approval k db' ≡ some a
  final_kept db db' k a r s found final =
      final_Changes a found final ((Steps-Evolves (Reach-Distinct r) s).rows k)

  decision_kept :
      {db db' : Db} (k : String) (row : DecisionRow)
      → Evolves db db'
      → get_decision k db ≡ some row
      → get_decision k db' ≡ some row
  decision_kept {db} {db'} k row evolves found =
      rw (evolves.decided.1)
        (find-append decision_key k db.decisions evolves.decided.0 ∙ rw found refl)

  -- A decision is final under its idempotency key: after any operations from a reachable state with
  -- a decision under the key of a call, the call gets that decision again if it has the decision's
  -- approval, verb and note, and fails with 409 IDEMPOTENCY_CONFLICT if not; either way it writes
  -- nothing. (The approval of the call is there.)
  pub decided_once :
      (d : Draws) (c : Call) (row : DecisionRow) (a : ApprovalRow) (db db' : Db)
      → Reach db
      → Steps db db'
      → get_decision c.idempotency_key db ≡ some row
      → get_approval c.approval_id db' ≡ some a
      → (Agrees c row
          → decide_approval h d c db'
            ≡ (ok (record { outcome = replayed; approval = a; decision_row = row }), db'))
        × ((Agrees c row → ⊥)
            → decide_approval h d c db' ≡ (err (firewall idempotency_conflict 409), db'))
  decided_once d c row a db db' r s used found =
      decide_used h d c row db' a
        (decision_kept c.idempotency_key row (Steps-Evolves (Reach-Distinct r) s) used) found
