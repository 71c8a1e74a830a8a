-- ===== src/Approvals/Deliveries.antt =====
-- What a resume of app/approvals.py that ends as finished, or that finds other arguments than were
-- approved, has done.
use real_guard_v.Prelude.{
  ◌≡◌, ◌≢◌, refl, ◌∙◌, sym, ap, arith, Bool, true, false, Option, some, str_eq, eq_iff, if_both,
  Option-cases, inl, inr, map,
}
use real_guard_v.Json.{Json, end, Fields, field, arr, from_list, str}
use real_guard_v.Errors.{Result, ok}
use real_guard_v.Schemas.{is_deny, Transformation}
use real_guard_v.Store.{Db, ApprovalRow, ApprovalState, resuming, completed}
use real_guard_v.Store.Tx.{
  Tx, pure, ◌>>◌, lift_both, >>=-eq-ok, immediate_transaction-0, immediate_transaction-ok,
  get_approval, approval_key,
}
use real_guard_v.Store.Table.{find-key}
use real_guard_v.Approvals.{Hashing, Draws, is_allowed}
use real_guard_v.Approvals.Effects.{with_approval, get-with_approval}
use real_guard_v.Approvals.Payloads.{
  payload_messages, system_prompt_text_from_messages, first_choice, content_of, sanitized_response,
}
use real_guard_v.Approvals.Resume.{
  Claim, Upstream, GuardResult, ResumeOutcome, finished, denied_output_guard,
  denied_arguments_changed, refuse, complete, complete_body, conclude, deliver, finish_resume,
  recomputed_hash,
}
use real_guard_v.Approvals.Evolution.{err_ne_ok, get_self}
use real_guard_v.Approvals.Evolution.Completions.{
  complete_body_ok, complete_body_missing, completed_row,
}

-- The answer after a call is the one that is written there, and the call has returned.
answered :
    (m : Tx Unit) (o r : ResumeOutcome) (db : Db)
    → ((m >> pure o) db).0 ≡ ok r
    → (o ≡ r) × ((m db).0 ≡ ok tt) × (((m >> pure o) db).1 ≡ (m db).1)
answered m o r db h =
    let (a, ran, same) = >>=-eq-ok m (λ _. pure o) db h in
    let answer : ok o ≡ ok r = sym (ap (λ (p : Result ResumeOutcome × Db). p.0) same) ∙ h in
    (cc answer, ran, ap (λ (p : Result ResumeOutcome × Db). p.1) same)

guard_ends : denied_output_guard ≡ finished → ⊥
guard_ends e = cc

arguments_end : denied_arguments_changed ≡ finished → ⊥
arguments_end e = cc

completes : (s : ApprovalState) → is_allowed s completed ≡ true → s ≡ resuming
completes s e = ground arith

module _ (h : Hashing) (u : Upstream) (retain : Bool) (d : Draws) (c : Claim) where
  -- What a resume has done that ends as finished.
  pub record Delivered (db db' : Db) : Type 0 where
    pub arguments : recomputed_hash h c ≡ c.stored_hash
    pub response : Json
    pub called : u.complete c.payload ≡ ok response
    pub choice : Option Json
    pub chosen : first_choice response ≡ ok choice
    pub verdict : GuardResult
    pub guarded :
        u.guard
          (content_of choice)
          (system_prompt_text_from_messages (payload_messages c.payload))
          response
        ≡ ok verdict
    pub passed : is_deny verdict.verdict ≡ false
    pub row : ApprovalRow
    pub was : get_approval c.approval_id db ≡ some row
    pub claimed : row.state ≡ resuming
    pub is :
        get_approval c.approval_id db'
        ≡ some (completed_row h d (sanitized_response verdict.sanitized_content response) row)

  completes_row :
      (response : Json) (t : Transformation) (db : Db)
      → (complete h d retain c response t db).0 ≡ ok tt
      → (a : ApprovalRow) × (get_approval c.approval_id db ≡ some a)
        × (a.state ≡ resuming)
        × (get_approval c.approval_id (complete h d retain c response t db).1
            ≡ some (completed_row h d response a))
  completes_row response t db e =
      let body : (complete_body h d retain c response t db).0 ≡ ok tt =
        sym (immediate_transaction-0 (complete_body h d retain c response t) db) ∙ e in
      let done = immediate_transaction-ok (complete_body h d retain c response t) db body in
      elim (Option-cases (get_approval c.approval_id db)) [
        | inl missing ↦
            absurd (err_ne_ok (complete_body_missing h d retain c response t db missing) body)
        | inr (a, found) ↦
            let (allowed, after) = complete_body_ok h d retain c response t a db found body in
            let id : a.id ≡ c.approval_id =
              find-key approval_key c.approval_id db.approvals found in
            (a, found, completes a.state allowed, rw (done, after) (now a found id))
      ]
    where
      now :
          (a : ApprovalRow)
          → get_approval c.approval_id db ≡ some a
          → a.id ≡ c.approval_id
          → get_approval c.approval_id (with_approval (completed_row h d response a) db)
            ≡ some (completed_row h d response a)
      now a found id =
          get-with_approval c.approval_id a (completed_row h d response a) db
            (get_self c.approval_id db a found)
          ∙ rw ((eq_iff a.id c.approval_id).1 id) refl

  abbrev Outcome : Db → Result ResumeOutcome × Db → Type 0
  Outcome db p = p.0 ≡ ok finished → Delivered db p.1

  abbrev denial : GuardResult → Fields
  denial g = field "reason_codes" (arr (from_list (map str g.reason_codes))) end

  conclude_finished :
      (response : Json) (choice : Option Json) (g : GuardResult) (db : Db)
      → recomputed_hash h c ≡ c.stored_hash
      → u.complete c.payload ≡ ok response
      → first_choice response ≡ ok choice
      → u.guard
          (content_of choice)
          (system_prompt_text_from_messages (payload_messages c.payload))
          response
        ≡ ok g
      → Outcome db (conclude h u retain d c response g db)
  unfolding conclude
  conclude_finished response choice g db arguments called chosen guarded =
      if_both (Outcome db) (is_deny g.verdict)
        (λ _ e. absurd (
          guard_ends
            (answered (refuse h d c "OUTPUT_GUARD_DENIED" "RESUME_OUTPUT_GUARD_DENIED" (denial g))
              denied_output_guard finished db e).0))
        (λ passed e.
          let sanitized = sanitized_response g.sanitized_content response in
          let (_, ran, same) =
            answered (complete h d retain c sanitized g.transformation) finished finished db e in
          let (a, found, state, now) = completes_row sanitized g.transformation db ran in
          record {
            arguments = arguments;
            response = response;
            called = called;
            choice = choice;
            chosen = chosen;
            verdict = g;
            guarded = guarded;
            passed = passed;
            row = a;
            was = found;
            claimed = state;
            is = rw same now;
          })

  deliver_finished :
      (db : Db) → recomputed_hash h c ≡ c.stored_hash → Outcome db (deliver h u retain d c db)
  unfolding deliver
  deliver_finished db arguments =
      lift_both (Outcome db) (u.complete c.payload) _ db (λ _ e. cc)
        (λ response called.
          lift_both (Outcome db) (first_choice response) _ db (λ _ e. cc)
            (λ choice chosen.
              lift_both (Outcome db)
                (u.guard (content_of choice)
                  (system_prompt_text_from_messages (payload_messages c.payload)) response)
                (λ g. conclude h u retain d c response g) db (λ _ e. cc)
                (λ g guarded.
                  conclude_finished response choice g db arguments called chosen guarded)))

  -- The work after a claim ends as finished only if the material arguments still have the hash that
  -- was approved, the provider has answered the stored payload, and the output guard has not denied
  -- the answer; the row, which was in RESUMING, is then in COMPLETED with the guarded answer as its
  -- result.
  pub finish_finished :
      (db : Db)
      → (finish_resume h u retain d c db).0 ≡ ok finished
      → Delivered db (finish_resume h u retain d c db).1
  unfolding finish_resume
  finish_finished db =
      if_both (Outcome db) (str_eq (recomputed_hash h c) c.stored_hash)
        (λ same. deliver_finished db ((eq_iff (recomputed_hash h c) c.stored_hash).0 same))
        (λ _ e. absurd (
          arguments_end
            (answered (refuse h d c "ARGUMENTS_CHANGED" "RESUME_ARGUMENTS_CHANGED" end)
              denied_arguments_changed finished db e).0))

-- With material arguments whose hash is not the approved one, the provider and the output guard are
-- not called: the work after the claim is the same whatever they would answer, and it does not end
-- as finished.
pub finish-mismatch :
    (h : Hashing) (u v : Upstream) (retain : Bool) (d : Draws) (c : Claim) (db : Db)
    → recomputed_hash h c ≢ c.stored_hash
    → (finish_resume h u retain d c db ≡ finish_resume h v retain d c db)
      × ((finish_resume h u retain d c db).0 ≢ ok finished)
unfolding finish_resume
finish-mismatch h u v retain d c db differ =
    let apart : str_eq (recomputed_hash h c) c.stored_hash ≡ false =
      ground (arith, eq_iff (recomputed_hash h c) c.stored_hash) in
    (rw (apart, finish_resume) refl, λ e. differ (finish_finished h u retain d c db e).arguments)
