-- ===== src/Approvals/Evolution/Resumes.antt =====
-- The evolution under `finish_resume`, the part of a resume after its claim.
use real_guard_v.Prelude.{String, Bool, str_eq, if_both}
use real_guard_v.Json.{Json, end}
use real_guard_v.Errors.{Result}
use real_guard_v.Schemas.{is_deny}
use real_guard_v.Store.{Db}
use real_guard_v.Store.Tx.{pure, ◌>>◌, lift_both, >>-pure-1}
use real_guard_v.Approvals.{Hashing, Draws}
use real_guard_v.Approvals.Rows.{Evolves, Evolves-refl}
use real_guard_v.Approvals.Evolution.{immediate-Evolves}
use real_guard_v.Approvals.Evolution.Completions.{refuse_body_Evolves, complete_body_Evolves}
use real_guard_v.Approvals.Payloads.{
  payload_messages, system_prompt_text_from_messages, first_choice, content_of,
}
use real_guard_v.Approvals.Resume.{
  Claim, Upstream, GuardResult, ResumeOutcome, refuse, complete, refuse_body, complete_body,
  conclude, deliver, finish_resume, recomputed_hash,
}
use real_guard_v.Json.{Fields}
use real_guard_v.Schemas.{Transformation}

module _ (h : Hashing) (d : Draws) where
  refuse-Evolves :
      (c : Claim) (note event : String) (more : Fields) (o : ResumeOutcome) (db : Db)
      → Evolves db ((refuse h d c note event more >> pure o) db).1
  refuse-Evolves c note event more o db = rw (>>-pure-1 (refuse h d c note event more) o db) (
      immediate-Evolves (refuse_body h d c note event more) db
        (refuse_body_Evolves h d c note event more db))

  complete_Evolves :
      (retain : Bool) (c : Claim) (response : Json) (t : Transformation) (o : ResumeOutcome)
      (db : Db)
      → Evolves db ((complete h d retain c response t >> pure o) db).1
  complete_Evolves retain c response t o db =
      rw (>>-pure-1 (complete h d retain c response t) o db) (
        immediate-Evolves (complete_body h d retain c response t) db
          (complete_body_Evolves h d retain c response t db))

module _ (h : Hashing) (u : Upstream) (retain : Bool) (d : Draws) where
  abbrev Keeps : Db → Result ResumeOutcome × Db → Type 0
  Keeps db p = Evolves db p.1

  conclude-Evolves :
      (c : Claim) (response : Json) (g : GuardResult) (db : Db)
      → Evolves db (conclude h u retain d c response g db).1
  unfolding conclude
  conclude-Evolves c response g db =
      if_both (Keeps db) (is_deny g.verdict)
        (λ _. refuse-Evolves h d c "OUTPUT_GUARD_DENIED" "RESUME_OUTPUT_GUARD_DENIED" _ _ db)
        (λ _. complete_Evolves h d retain c _ g.transformation _ db)

  deliver-Evolves : (c : Claim) (db : Db) → Evolves db (deliver h u retain d c db).1
  unfolding deliver
  deliver-Evolves c db =
      lift_both (Keeps db) (u.complete c.payload) _ db (λ _. Evolves-refl db)
        (λ response _.
          lift_both (Keeps db) (first_choice response) _ db (λ _. Evolves-refl db)
            (λ choice _.
              lift_both (Keeps db)
                (u.guard (content_of choice)
                  (system_prompt_text_from_messages (payload_messages c.payload)) response)
                (λ g. conclude h u retain d c response g) db (λ _. Evolves-refl db)
                (λ g _. conclude-Evolves c response g db)))

  pub finish_resume-Evolves : (c : Claim) (db : Db) → Evolves db (finish_resume h u retain d c db).1
  unfolding finish_resume
  finish_resume-Evolves c db =
      if_both (Keeps db) (str_eq (recomputed_hash h c) c.stored_hash) (λ _. deliver-Evolves c db)
        (λ _. refuse-Evolves h d c "ARGUMENTS_CHANGED" "RESUME_ARGUMENTS_CHANGED" end _ db)
