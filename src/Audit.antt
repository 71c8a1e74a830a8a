-- ===== src/Audit.antt =====
-- app/audit.py: the event that records the verdict on a transaction, chained to the transaction's
-- earlier event. SHA-256 is a parameter (`Hashing`).
pub mod Apart
use real_guard_v.Prelude.{
  String, Bool, Option, none, some, List, [], ◌∷◌, map, str_eq, ltb, if◌then◌else◌, is_some, not,
  false, ◌&&◌, text_before,
}
use real_guard_v.Json.{Json, str, arr, obj, bool, end, field, from_list}
use real_guard_v.Store.{Db, AuditEventRow}
use real_guard_v.Store.Tx.{Tx, immediate_transaction}
use real_guard_v.Approvals.{Hashing, Draws, prev_hash_of, insert_event}

-- The keyword arguments.
pub record DecisionRecord : Type 0 where
  pub transaction_id : String
  pub correlation_id : String
  pub actor_id : String
  pub verdict : String
  pub risk_level : String
  pub transformation : String
  pub reason_codes : List String
  pub policy_hits : List String
  pub policy_version : String
  pub mode : String
  pub degraded : Bool

-- `sorted(xs)`
abbrev insert_text : String → List String → List String
insert_text k [] = k ∷ []
insert_text k (x ∷ xs) =
    let rest = insert_text k xs in if text_before x k then x ∷ rest else k ∷ x ∷ xs

abbrev pub sorted : List String → List String
sorted [] = []
sorted (x ∷ xs) = insert_text x (sorted xs)

abbrev strings : List String → Json
strings xs = arr (from_list (map str xs))

unfoldable pub decision_payload : DecisionRecord → Json
decision_payload q = obj (
    field "verdict" (str q.verdict) (
      field "risk_level" (str q.risk_level) (
        field "transformation" (str q.transformation) (
          field "reason_codes" (strings (sorted q.reason_codes)) (
            field "policy_hits" (strings (sorted q.policy_hits)) (
              field "policy_version" (str q.policy_version)
                (field "mode" (str q.mode) (field "degraded" (bool q.degraded) end))))))))

-- An event of the transaction that belongs to no approval.
abbrev pub is_decision_of : String → AuditEventRow → Bool
is_decision_of transaction_id e =
    not (is_some e.approval_id)
    && elim e.transaction_id [ none ↦ false | some t ↦ str_eq t transaction_id ]

abbrev newer : AuditEventRow → Option AuditEventRow → Option AuditEventRow
newer e none = some e
newer e (some f) = if ltb e.id f.id then some f else some e

pub latest_decision : String → List AuditEventRow → Option AuditEventRow
latest_decision transaction_id [] = none
latest_decision transaction_id (e ∷ events) =
    let rest = latest_decision transaction_id events in
    if is_decision_of transaction_id e then newer e rest else rest

module _ (h : Hashing) (d : Draws) (q : DecisionRecord) where
  unfoldable pub decision_event : Db → AuditEventRow
  unfolding latest_decision decision_payload
  decision_event db =
      let prev_hash = prev_hash_of h.genesis (latest_decision q.transaction_id db.events) in
      record {
        id = d.event_id;
        transaction_id = some q.transaction_id;
        approval_id = none;
        correlation_id = q.correlation_id;
        event_type = "decision";
        actor_type = "service";
        actor_id = q.actor_id;
        payload = decision_payload q;
        prev_hash = prev_hash;
        event_hash = h.chain prev_hash (decision_payload q);
        created_at = d.logged;
      }

  unfoldable pub record_decision_event : Tx (Unit {0})
  unfolding decision_event
  record_decision_event = immediate_transaction (λ db. insert_event (decision_event db) db)
