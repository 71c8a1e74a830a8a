-- ===== src/Approvals/Evolution/Completions.antt =====
-- The evolution under the refusal and the completion of a claimed row.
use real_guard_v.Schemas.{Transformation}
use real_guard_v.Prelude.{
  ◌≡◌, refl, sym, String, Bool, true, none, some, List, [], ◌∷◌, ◌++◌, arith, if◌then◌else◌, inl,
  inr, Option-cases,
}
use mathlib.Core.List.{append-nil}
use real_guard_v.Errors.{ok, err, assertion_error}
use real_guard_v.Json.{Json, end, field, Fields, str}
use real_guard_v.Store.{Db, ApprovalRow, resuming, denied, completed, TransactionRow}
use real_guard_v.Store.Tx.{get_approval, transaction_key}
use real_guard_v.Store.Table.{find, update}
use real_guard_v.Approvals.{Hashing, Draws, is_allowed, transition, move, audit, change, system}
use real_guard_v.Approvals.Effects.{with_approval, moved, set_status-eq, log, after_move}
use real_guard_v.Approvals.Rows.{drawn}
use real_guard_v.Approvals.Resume.{
  refuse_body, complete_body, Claim, system_decision, transformation_name, set_response,
}
use real_guard_v.Approvals.Evolution.{
  Evolves-turn, EvolvesOk, get_self, allowed_gated, err_ne_ok, move_Evolves,
}

module _ (h : Hashing) (d : Draws) where
  refuse_body_ok :
      (c : Claim) (note event : String) (more : Fields) (a : ApprovalRow) (db : Db)
      → get_approval c.approval_id db ≡ some a
      → (refuse_body h d c note event more db).0 ≡ ok tt
      → (is_allowed a.state denied ≡ true)
        × (refuse_body h d c note event more db ≡ (
          ok tt,
          log h d c.approval_id
              (some c.transaction_id)
              c.transaction_id
              event
              (system "resume_worker")
              (change resuming denied more)
              (record (after_move a denied d c.transaction_id db) {
                decisions = db.decisions ++ system_decision h d c.approval_id note ∷ [];
              }),
        ))
  unfolding refuse_body move audit
  refuse_body_ok c note event more a db found e = ground (
    arith,
    set_status-eq c.transaction_id denied (record (with_approval (moved a denied d) db) {
      decisions = db.decisions ++ system_decision h d c.approval_id note ∷ [];
    }),
  )

  refuse_body_missing :
      (c : Claim) (note event : String) (more : Fields) (db : Db)
      → get_approval c.approval_id db ≡ none
      → (refuse_body h d c note event more db).0 ≡ err assertion_error
  unfolding refuse_body
  refuse_body_missing c note event more db e = ground arith

  pub refuse_body_Evolves :
      (c : Claim) (note event : String) (more : Fields) (db : Db)
      → EvolvesOk db (refuse_body h d c note event more db)
  refuse_body_Evolves c note event more db = record {
    at = λ r e. elim (Option-cases (get_approval c.approval_id db)) [
      | inl missing ↦ absurd (err_ne_ok (refuse_body_missing c note event more db missing) e)
      | inr (a, found) ↦
          let (allowed, after) = refuse_body_ok c note event more a db found e in
          rw after (
            move_Evolves h d a denied c.transaction_id
              (db.decisions ++ system_decision h d c.approval_id note ∷ [])
              (system_decision h d c.approval_id note ∷ []) c.approval_id c.transaction_id event
              (some c.transaction_id) (system "resume_worker") (change resuming denied more) db refl
              (get_self c.approval_id db a found) allowed refl (λ g. cc))
    ];
  }

  -- The row and the transactions after a completion.
  abbrev pub completed_row : Json → ApprovalRow → ApprovalRow
  completed_row response a = record (moved a completed d) { completion_result = some response }

  abbrev pub responded : Bool → Claim → Json → List TransactionRow → List TransactionRow
  responded retain c response rows = elim (find transaction_key c.transaction_id rows) [
    | none ↦ rows
    | some t ↦
        update transaction_key
          (record t {
            status = completed;
            completed_at = some d.logged;
            response_content = if retain then some response else t.response_content;
          })
          rows
  ]

  pub set_response-eq :
      (retain : Bool) (c : Claim) (response : Json) (db : Db)
      → set_response h d retain c response db
        ≡ (ok tt, record db { transactions = responded retain c response db.transactions })
  unfolding set_response
  set_response-eq retain c response db = ground arith

  pub complete_body_ok :
      (retain : Bool) (c : Claim) (response : Json) (t : Transformation) (a : ApprovalRow) (db : Db)
      → get_approval c.approval_id db ≡ some a
      → (complete_body h d retain c response t db).0 ≡ ok tt
      → (is_allowed a.state completed ≡ true)
        × (complete_body h d retain c response t db ≡ (
          ok tt,
          log h d c.approval_id
              (some c.transaction_id)
              c.transaction_id
              "RESUME_COMPLETED"
              (system "resume_worker")
              (change resuming completed
                (field "output_transformation" (str (transformation_name t)) end))
              (record (with_approval (completed_row response a) db) {
                transactions = responded retain c response db.transactions;
              }),
        ))
  unfolding complete_body transition audit
  complete_body_ok retain c response t a db found e =
      ground
        (arith, set_response-eq retain c response (with_approval (completed_row response a) db))

  pub complete_body_missing :
      (retain : Bool) (c : Claim) (response : Json) (t : Transformation) (db : Db)
      → get_approval c.approval_id db ≡ none
      → (complete_body h d retain c response t db).0 ≡ err assertion_error
  unfolding complete_body
  complete_body_missing retain c response t db e = ground arith

  pub complete_body_Evolves :
      (retain : Bool) (c : Claim) (response : Json) (t : Transformation) (db : Db)
      → EvolvesOk db (complete_body h d retain c response t db)
  complete_body_Evolves retain c response t db = record {
    at = λ r e. elim (Option-cases (get_approval c.approval_id db)) [
      | inl missing ↦ absurd (err_ne_ok (complete_body_missing retain c response t db missing) e)
      | inr (a, found) ↦
          let (allowed, after) = complete_body_ok retain c response t a db found e in
          rw after (
            Evolves-turn a (completed_row response a) db _ [] _ (get_self c.approval_id db a found)
              (drawn allowed) (omega arith)
              (record {
                id = refl;
                transaction_id = refl;
                payload = refl;
                args_hash = refl;
                creator = refl;
                expiry = refl;
              })
              (λ _. inl (allowed_gated a.state completed allowed refl)) refl
              (sym (append-nil db.decisions)) refl)
    ];
  }
