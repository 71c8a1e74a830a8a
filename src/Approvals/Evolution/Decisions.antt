-- ===== src/Approvals/Evolution/Decisions.antt =====
-- The evolution under `create_approval` and `decide_approval`.
use real_guard_v.Prelude.{
  ◌≡◌, refl, ◌∙◌, sym, String, true, none, some, [], ◌∷◌, ◌++◌, arith, str_eq, eq_iff, inl, inr,
  Bool-cases, Any,
}
use mathlib.Core.List.{append-nil}
use real_guard_v.Errors.{ok}
use real_guard_v.Store.{Db, ApprovalRow, TransactionRow, pending}
use real_guard_v.Store.Tx.{get_approval, approval_key}
use real_guard_v.Store.Table.{find, find-append, find-key}
use real_guard_v.Approvals.{Hashing, Draws, audit, system}
use real_guard_v.Approvals.Effects.{log, moved}
use real_guard_v.Approvals.Rows.{
  Evolves, Evolves-refl, Changes, here, next, born, drawn, claims, Edge, Distinct-append,
  HasConsent, IsSanctioned, is_gated, Consents,
}
use real_guard_v.Approvals.Evolution.{immediate-Evolves, Evolves-turn, Kept-moved, get_self}
use real_guard_v.Approvals.Create.{
  Request, create_body, create_approval, new_approval, new_transaction, creation_payload,
}
use real_guard_v.Approvals.Decide.{Call, decide_approval, verdict_state, decision_row_of}
use real_guard_v.Approvals.Decide.Applied.{Admits, decided, decide_writes}

-- The tables with the two rows of a new approval.
abbrev pub created : Draws → Request → Db → Db
created d q db = record db {
  transactions = db.transactions ++ new_transaction d q ∷ [];
  approvals = db.approvals ++ new_approval d q ∷ [];
}

module _ (h : Hashing) (d : Draws) (q : Request) where
  pub create_body_ok :
      (db : Db) {r : ApprovalRow × TransactionRow}
      → (create_body h d q db).0 ≡ ok r
      → (get_approval d.row_id db ≡ none)
        × (create_body h d q db ≡ (
          ok (new_approval d q, new_transaction d q),
          log h d
              (new_approval d q).id
              (some q.transaction_id)
              q.correlation_id
              "APPROVAL_CREATED"
              (system "gateway")
              (creation_payload h d q)
              (created d q db),
        ))
  unfolding create_body audit
  create_body_ok db e = ground arith

  new_rows :
      (db : Db) (k : String)
      → get_approval d.row_id db ≡ none
      → Changes (get_approval k db) (get_approval k (created d q db))
  unfolding new_approval find
  new_rows db k fresh = elim (Bool-cases (str_eq d.row_id k)) [
    | inl same ↦
        let k_is : d.row_id ≡ k = (eq_iff d.row_id k).0 same in
        let old : get_approval k db ≡ none = rw (← k_is) fresh in
        next here (
          born (new_approval d q) old
            (find-append approval_key k db.approvals (new_approval d q ∷ []) ∙ rw (old, same)) refl
            refl)
    | inr other ↦
        let same_row : get_approval k (created d q db) ≡ get_approval k db =
          ground (arith, find-append approval_key k db.approvals (new_approval d q ∷ [])) in
        rw same_row here
  ]

  new_IsSanctioned :
      (db : Db)
      → get_approval d.row_id db ≡ none
      → IsSanctioned db
      → (k : String) (a : ApprovalRow) → get_approval k (created d q db) ≡ some a
      → is_gated a.state ≡ true
      → Any (Consents k a.creator_identity_id) db.decisions
  unfolding new_approval find
  new_IsSanctioned db fresh old k a found gated =
      old k a (ground (arith, find-append approval_key k db.approvals (new_approval d q ∷ [])))
        gated

  pub create_Evolves : (db : Db) → Evolves db (create_approval h d q db).1
  unfolding create_approval new_approval
  create_Evolves db = immediate-Evolves (create_body h d q) db (record {
    at = λ r e.
        let (fresh, after) = create_body_ok db e in
        rw after (record {
          rows = λ k. new_rows db k fresh;
          decided = ([], sym (append-nil db.decisions));
          logged = (_, refl);
          distinct = Distinct-append (new_approval d q) db.approvals fresh;
          sanctioned = new_IsSanctioned db fresh;
        });
  })

module _ (h : Hashing) (d : Draws) (c : Call) where
  verdict-Edge : (a : ApprovalRow) → a.state ≡ pending → Edge a.state (verdict_state c.decision)
  verdict-Edge a e = elim (Bool-cases (str_eq c.decision "APPROVE")) [
    | inl yes_verb ↦ rw (e, yes_verb) (drawn refl)
    | inr no_verb ↦ rw (e, no_verb) (drawn refl)
  ]

  approve_of : is_gated (verdict_state c.decision) ≡ true → c.decision ≡ "APPROVE"
  approve_of g = ground (arith, eq_iff c.decision "APPROVE")

  unclaimed : claims (verdict_state c.decision) ≡ 0
  unclaimed = ground arith

  consent :
      (a : ApprovalRow) (db : Db)
      → get_approval c.approval_id db ≡ some a
      → Admits d c a
      → HasConsent a (moved a (verdict_state c.decision) d) (decision_row_of h d c a ∷ [])
  unfolding decision_row_of
  consent a db found admits gated = inr (
      inl (
        sym (find-key approval_key c.approval_id db.approvals found),
        approve_of gated,
        admits.by_another,
      ))

  pub decided_Evolves :
      (a : ApprovalRow) (db : Db)
      → get_approval c.approval_id db ≡ some a
      → Admits d c a
      → Evolves db (decided h d c a db)
  decided_Evolves a db found admits =
      Evolves-turn a (moved a (verdict_state c.decision) d) db _ _ _
        (get_self c.approval_id db a found) (verdict-Edge a admits.is_open)
        (omega (arith, unclaimed)) (Kept-moved a (verdict_state c.decision) d)
        (consent a db found admits) refl refl refl

  pub decide_Evolves : (db : Db) → Evolves db (decide_approval h d c db).1
  decide_Evolves db = elim (decide_writes h d c db) [
    | inl same ↦ rw same (Evolves-refl db)
    | inr (a, found, admits, wrote) ↦ rw wrote (decided_Evolves a db found admits)
  ]
