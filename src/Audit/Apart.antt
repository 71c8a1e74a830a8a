-- ===== src/Audit/Apart.antt =====
-- The events of an approval (app/approvals.py) are in a stream apart from the decision events of
-- app/audit.py.
use real_guard_v.Prelude.{
  ◌≡◌, refl, arith, String, Bool, false, none, some, ◌&&◌, str_eq, List, [], ◌∷◌, filter,
  filter-append, Option,
}
use mathlib.Core.List.{append-nil}
use real_guard_v.Json.{Json}
use real_guard_v.Store.{Db, AuditEventRow}
use real_guard_v.Store.Tx.{>>=-keep, immediate_transaction-keep}
use real_guard_v.Approvals.{Hashing, Draws, Actor, audit, audit_event}
use real_guard_v.Approvals.Create.{
  Request, new_transaction, new_approval, insert_transaction, insert_approval, create_body,
  create_approval,
}

-- A row of type "decision" of the transaction (PRV-009), by the columns alone.
abbrev pub is_decision_event : String → AuditEventRow → Bool
is_decision_event transaction_id e =
    str_eq e.event_type "decision"
    && elim e.transaction_id [ none ↦ false | some t ↦ str_eq t transaction_id ]

module _ (t : String) where
  abbrev pub decisions : Db → List AuditEventRow
  decisions db = filter (is_decision_event t) db.events

  audit-decisions :
      (h : Hashing) (d : Draws) (approval_id : String) (transaction_id : Option String)
      (correlation_id event_type : String) (actor : Actor) (payload : Json) (db : Db)
      → str_eq event_type "decision" ≡ false
      → decisions
          (audit h d approval_id transaction_id correlation_id event_type actor payload db).1
        ≡ decisions db
  unfolding audit audit_event
  audit-decisions h d approval_id transaction_id correlation_id event_type actor payload db other =
      let e : AuditEventRow =
        audit_event h d approval_id transaction_id correlation_id event_type actor payload db in
      ground (
        arith,
        filter-append (is_decision_event t) db.events (e ∷ []),
        append-nil (filter (is_decision_event t) db.events),
      )

  -- The creation of an approval adds no decision event.
  pub create_approval-decisions :
      (h : Hashing) (d : Draws) (q : Request) (db : Db)
      → decisions (create_approval h d q db).1 ≡ decisions db
  unfolding create_approval create_body
  create_approval-decisions h d q db = immediate_transaction-keep decisions (create_body h d q) db (
      >>=-keep decisions (insert_transaction (new_transaction d q)) _ db (ground arith) λ _ db1.
        >>=-keep decisions (insert_approval (new_approval d q)) _ db1 (ground arith) λ _ db2.
          >>=-keep decisions (audit h d (new_approval d q).id _ _ _ _ _) _ db2
            (audit-decisions h d _ _ _ _ _ _ db2 refl) λ _ _. refl)
