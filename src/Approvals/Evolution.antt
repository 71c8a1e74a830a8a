-- ===== src/Approvals/Evolution.antt =====
-- Every operation of app/approvals.py lets each row evolve by permitted steps, and only adds
-- decisions and audit events.
pub mod Claims
pub mod Completions
pub mod Resumes
pub mod Loops
pub mod Decisions
pub mod Sweeps
use real_guard_v.Schemas.{Transformation}
use mathlib.Core.Path.{subst}
use real_guard_v.Prelude.{
  ℕ, ◌+◌, ◌≡◌, refl, ◌∙◌, sym, ◌⊎◌, String, Bool, true, false, Option, none, some, List, [], ◌∷◌,
  ◌++◌, arith, str_eq, eq_iff, if◌then◌else◌, inl, inr, Option-cases, Bool-cases, if_both, not, leb,
  ◌||◌,
}
use mathlib.Core.List.{append_assoc, append-nil}
use real_guard_v.Errors.{Result, ok, err, Result-cases, Error, assertion_error}
use real_guard_v.Json.{Json, end, num, pos, field, Fields, str}
use real_guard_v.Store.{
  Db, ApprovalRow, ApprovalState, DecisionRow, AuditEventRow, pending, approved, resuming, denied,
  expired, cancelled, completed, failed, TransactionRow,
}
use real_guard_v.Store.Tx.{
  get_approval, approval_key, Tx, immediate_transaction, immediate_transaction-ok,
  immediate_transaction-raise, transaction_key, continue, ◌>>=◌,
}
use real_guard_v.Store.Table.{find, update, find-update, find-key}
use real_guard_v.Approvals.{
  Hashing, Draws, is_allowed, is_resuming, transition, move, set_status, audit, insert_event,
  change, system, insert_decision, is_approved, Actor, is_completed,
}
use real_guard_v.Approvals.Effects.{with_approval, moved, mirror, set_status-eq, log, after_move}
use real_guard_v.Approvals.Rows.{
  Edge, drawn, gave_up, Kept, Changes, Evolves, here, turn-rows, claims, Evolves-refl,
  Evolves-trans, Distinct-update, HasConsent, turn-IsSanctioned, is_gated,
}
use real_guard_v.Approvals.Expiry.{expire_row}
use real_guard_v.Approvals.Resume.{
  claim_elapsed, claim_live, refuse_body, complete_body, Claim, claim_found, system_decision,
  claim_body, claim_resume, transformation_name, set_response,
}
use real_guard_v.Approvals.Recovery.{recover_row}

-- What a transition from a current row leaves behind.
pub Evolves-turn :
    (a b : ApprovalRow) (db db' : Db) (ds : List DecisionRow) (es : List AuditEventRow)
    → get_approval a.id db ≡ some a
    → Edge a.state b.state
    → b.resume_attempts ≡ a.resume_attempts + claims b.state
    → Kept a b
    → HasConsent a b ds
    → db'.approvals ≡ update approval_key b db.approvals
    → db'.decisions ≡ db.decisions ++ ds
    → db'.events ≡ db.events ++ es
    → Evolves db db'
Evolves-turn a b db db' ds es found e n kept consent rows decisions events = record {
  rows = λ k. rw rows (turn-rows a b db found e n kept k);
  decided = (ds, decisions);
  logged = (es, events);
  distinct = λ h. rw rows (Distinct-update b db.approvals h);
  sanctioned = turn-IsSanctioned a b db db' ds found kept consent rows decisions;
}

-- A body that returns has let the tables evolve.
pub record EvolvesOk {A : Type 0} (db : Db) (p : Result A × Db) : Type 0 where
  pub at : (r : A) → p.0 ≡ ok r → Evolves db p.1

pub immediate-Evolves :
    {A : Type 0} (m : Tx A) (db : Db)
    → EvolvesOk db (m db)
    → Evolves db (immediate_transaction m db).1
immediate-Evolves m db good = elim (Result-cases (m db).0) [
  | inl (r, e) ↦ rw (immediate_transaction-ok m db e) (good.at r e)
  | inr (e, raised) ↦ rw (immediate_transaction-raise m db raised) (Evolves-refl db)
]

continue-Evolves :
    {A B : Type 0} (db db' : Db) (r : Result A) (f : A → Tx B)
    → ((a : A) → r ≡ ok a → Evolves db db' × EvolvesOk db' (f a db'))
    → EvolvesOk db (continue r f db')
continue-Evolves db db' (ok a) f good = record {
  at = λ b e. let (now, later) = good a refl in Evolves-trans now (later.at b e);
}
continue-Evolves db db' (err e) f good = record { at = λ b e. cc }

pub bind-Evolves :
    {A B : Type 0} (m : Tx A) (f : A → Tx B) (db : Db)
    → ((a : A) → (m db).0 ≡ ok a → Evolves db (m db).1 × EvolvesOk (m db).1 (f a (m db).1))
    → EvolvesOk db ((m >>= f) db)
bind-Evolves m f db good = let (r, db') = m db in continue-Evolves db db' r f good

-- The row that a lookup finds has the id that was looked up.
pub get_self :
    (k : String) (db : Db) (a : ApprovalRow)
    → get_approval k db ≡ some a
    → get_approval a.id db ≡ some a
get_self k db a e =
    subst (λ x. get_approval x db ≡ some a) (sym (find-key approval_key k db.approvals e)) e

-- The drawn edges into RESUMING and COMPLETED start in a gated state.
pub allowed_gated :
    (s t : ApprovalState)
    → is_allowed s t ≡ true
    → (is_resuming t || is_completed t) ≡ true
    → is_gated s ≡ true
allowed_gated s t e f = ground arith

pub err_ne_ok : {A : Type 0} {p : Result A} {e : Error} {a : A} → p ≡ err e → p ≡ ok a → ⊥
err_ne_ok p q = cc

pub Kept-moved : (a : ApprovalRow) (s : ApprovalState) (d : Draws) → Kept a (moved a s d)
Kept-moved a s d = record {
  id = refl;
  transaction_id = refl;
  payload = refl;
  args_hash = refl;
  creator = refl;
  expiry = refl;
}

module _ (h : Hashing) (d : Draws) where
  pub move_Evolves :
      (a : ApprovalRow) (to_state : ApprovalState) (k : String) (rows ds : List DecisionRow)
      (approval_id correlation event : String) (transaction_id : Option String) (actor : Actor)
      (payload : Json) (db : Db)
      → rows ≡ db.decisions ++ ds
      → get_approval a.id db ≡ some a
      → is_allowed a.state to_state ≡ true
      → claims to_state ≡ 0
      → HasConsent a (moved a to_state d) ds
      → let after = record (after_move a to_state d k db) { decisions = rows } in
        Evolves db (log h d approval_id transaction_id correlation event actor payload after)
  move_Evolves a to_state k rows ds approval_id correlation event transaction_id actor payload db
        added found allowed unclaimed consent =
      Evolves-turn a (moved a to_state d) db _ ds _ found (drawn allowed) (omega arith)
        (Kept-moved a to_state d) consent refl added refl
