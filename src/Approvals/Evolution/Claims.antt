-- ===== src/Approvals/Evolution/Claims.antt =====
-- The evolution under the expiry of a row and the claim of a resume.
use real_guard_v.Prelude.{
  ◌+◌, ◌≡◌, refl, sym, String, true, Option, none, some, [], arith, inl, if_both, not, leb,
}
use mathlib.Core.List.{append-nil}
use real_guard_v.Errors.{ok}
use real_guard_v.Json.{end, num, pos, field}
use real_guard_v.Store.{Db, ApprovalRow, approved, resuming, expired}
use real_guard_v.Store.Tx.{get_approval}
use real_guard_v.Approvals.{
  Hashing, Draws, is_allowed, transition, move, audit, change, system, is_approved,
}
use real_guard_v.Approvals.Effects.{with_approval, moved, set_status-eq, log, after_move}
use real_guard_v.Approvals.Rows.{drawn, Evolves, Evolves-refl}
use real_guard_v.Approvals.Expiry.{expire_row}
use real_guard_v.Approvals.Resume.{
  claim_elapsed, claim_live, Claim, claim_found, claim_body, claim_resume,
}
use real_guard_v.Approvals.Evolution.{
  Evolves-turn, EvolvesOk, immediate-Evolves, get_self, allowed_gated, move_Evolves,
}

module _ (h : Hashing) (d : Draws) where
  pub expire_row_ok :
      (a : ApprovalRow) (db : Db)
      → (expire_row h d a db).0 ≡ ok tt
      → (is_allowed a.state expired ≡ true)
        × (expire_row h d a db ≡ (
          ok tt,
          log h d a.id
              (some a.transaction_id)
              a.transaction_id
              "APPROVAL_EXPIRED_SWEEP"
              (system "sweeper")
              (change a.state expired end)
              (after_move a expired d a.transaction_id db),
        ))
  unfolding expire_row move audit
  expire_row_ok a db e =
      ground (arith, set_status-eq a.transaction_id expired (with_approval (moved a expired d) db))

  -- A transition, its mirrored status, the decisions `rows` and one audit event.
  pub expire_row-Evolves :
      (a : ApprovalRow) (db : Db)
      → get_approval a.id db ≡ some a
      → (expire_row h d a db).0 ≡ ok tt
      → Evolves db (expire_row h d a db).1
  expire_row-Evolves a db found e =
      let (allowed, after) = expire_row_ok a db e in
      rw after (
        move_Evolves h d a expired a.transaction_id db.decisions [] a.id a.transaction_id
          "APPROVAL_EXPIRED_SWEEP" (some a.transaction_id) (system "sweeper")
          (change a.state expired end) db (sym (append-nil db.decisions)) found allowed refl
          (λ g. cc))

  claim_elapsed_ok :
      (a : ApprovalRow) (db : Db) {r : Option Claim}
      → (claim_elapsed h d a db).0 ≡ ok r
      → (is_allowed a.state expired ≡ true)
        × (claim_elapsed h d a db ≡ (
          ok none,
          log h d a.id
              (some a.transaction_id)
              a.transaction_id
              "APPROVAL_EXPIRED_BEFORE_RESUME"
              (system "resume_worker")
              (change approved expired end)
              (after_move a expired d a.transaction_id db),
        ))
  unfolding claim_elapsed move audit
  claim_elapsed_ok a db e =
      ground (arith, set_status-eq a.transaction_id expired (with_approval (moved a expired d) db))

  claim_elapsed-Evolves :
      (a : ApprovalRow) (db : Db) {r : Option Claim}
      → get_approval a.id db ≡ some a
      → (claim_elapsed h d a db).0 ≡ ok r
      → Evolves db (claim_elapsed h d a db).1
  claim_elapsed-Evolves a db found e =
      let (allowed, after) = claim_elapsed_ok a db e in
      rw after (
        move_Evolves h d a expired a.transaction_id db.decisions [] a.id a.transaction_id
          "APPROVAL_EXPIRED_BEFORE_RESUME" (some a.transaction_id) (system "resume_worker")
          (change approved expired end) db (sym (append-nil db.decisions)) found allowed refl
          (λ g. cc))

  -- The row after a claim.
  abbrev pub claimed_row : ApprovalRow → ApprovalRow
  claimed_row a = record (moved a resuming d) { resume_attempts = a.resume_attempts + 1 }

  abbrev pub claim_of : ApprovalRow → Claim
  claim_of a = record {
    approval_id = a.id;
    transaction_id = a.transaction_id;
    payload = a.transformed_payload;
    stored_hash = a.material_args_hash;
  }

  pub claim_live_ok :
      (a : ApprovalRow) (db : Db) {r : Option Claim}
      → (claim_live h d a db).0 ≡ ok r
      → (is_allowed a.state resuming ≡ true)
        × (claim_live h d a db ≡ (
          ok (some (claim_of a)),
          log h d a.id
              (some a.transaction_id)
              a.transaction_id
              "RESUME_CLAIMED"
              (system "resume_worker")
              (change a.state resuming (field "attempt" (num (pos (a.resume_attempts + 1))) end))
              (with_approval (claimed_row a) db),
        ))
  unfolding claim_live transition audit
  claim_live_ok a db e = ground arith

  claim_live-Evolves :
      (a : ApprovalRow) (db : Db) {r : Option Claim}
      → get_approval a.id db ≡ some a
      → (claim_live h d a db).0 ≡ ok r
      → Evolves db (claim_live h d a db).1
  claim_live-Evolves a db found e =
      let (allowed, after) = claim_live_ok a db e in
      rw after (
        Evolves-turn a (claimed_row a) db _ [] _ found (drawn allowed) refl
          (record {
            id = refl;
            transaction_id = refl;
            payload = refl;
            args_hash = refl;
            creator = refl;
            expiry = refl;
          })
          (λ _. inl (allowed_gated a.state resuming allowed refl)) refl
          (sym (append-nil db.decisions)) refl)

  claim_found_Evolves :
      (o : Option ApprovalRow) (db : Db)
      → ((a : ApprovalRow) → o ≡ some a → get_approval a.id db ≡ some a)
      → EvolvesOk db (claim_found h d o db)
  unfolding claim_found
  claim_found_Evolves none db found = record { at = λ r e. Evolves-refl db }
  claim_found_Evolves (some a) db found =
      if_both (EvolvesOk db) (not (is_approved a.state))
        (λ _. record { at = λ r e. Evolves-refl db })
        (λ _.
          if_both (EvolvesOk db) (leb a.expires_at d.now)
            (λ _. record { at = λ r e. claim_elapsed-Evolves a db (found a refl) e })
            (λ _. record { at = λ r e. claim_live-Evolves a db (found a refl) e }))

  pub claim_resume-Evolves : (k : String) (db : Db) → Evolves db (claim_resume h d k db).1
  unfolding claim_resume claim_body
  claim_resume-Evolves k db =
      immediate-Evolves (claim_body h d k) db
        (claim_found_Evolves (get_approval k db) db (get_self k db))
