-- ===== src/Approvals/Rows.antt =====
-- How one approval row changes over time: the permitted transitions, what never changes, and the
-- evolution of the whole table, row by row. No code of its own.
use real_guard_v.Prelude.{
  ℕ, ◌+◌, ◌≡◌, ◌∙◌, sym, ◌⊎◌, String, Bool, true, false, Option, none, some, List, [], ◌∷◌, ◌++◌,
  arith, str_eq, eq_iff, if◌then◌else◌, inl, inr, Bool-cases, All, All-append, ◌≢◌, Any,
  Any-append_left, Any-append_right, ap,
}
use mathlib.Core.List.{append_assoc, append-nil}
use real_guard_v.Store.{
  Db, ApprovalRow, ApprovalState, DecisionRow, AuditEventRow, pending, approved, resuming,
  completed, failed,
}
use real_guard_v.Store.Tx.{get_approval, approval_key}
use real_guard_v.Store.Table.{find, update}
use real_guard_v.Approvals.{is_allowed}
use real_guard_v.Approvals.Effects.{with_approval, get-with_approval}

-- The drawn diagram, and the one edge that only the startup recovery takes.
pub data Edge (s t : ApprovalState) : Type 0 where
  drawn : is_allowed s t ≡ true → Edge s t
  gave_up : s ≡ resuming → t ≡ failed → Edge s t

-- What no operation changes in a row that is there.
pub record Kept (a b : ApprovalRow) : Type 0 where
  pub id : b.id ≡ a.id
  pub transaction_id : b.transaction_id ≡ a.transaction_id
  pub payload : b.transformed_payload ≡ a.transformed_payload
  pub args_hash : b.material_args_hash ≡ a.material_args_hash
  pub creator : b.creator_identity_id ≡ a.creator_identity_id
  pub expiry : b.expires_at ≡ a.expires_at

abbrev pub claims : ApprovalState → ℕ
claims resuming = 1
claims _ = 0

-- One change of what is found under one id: an attempt is counted exactly when the row is claimed.
pub data Change (o o' : Option ApprovalRow) : Type 0 where
  born :
      (b : ApprovalRow)
      → o ≡ none
      → o' ≡ some b
      → b.state ≡ pending
      → b.resume_attempts ≡ 0
      → Change o o'
  turn :
      (a b : ApprovalRow)
      → o ≡ some a
      → o' ≡ some b
      → Edge a.state b.state
      → b.resume_attempts ≡ a.resume_attempts + claims b.state
      → Kept a b
      → Change o o'

pub data Changes (o : Option ApprovalRow) : Option ApprovalRow → Type 0 where
  here : Changes o o
  next : {p q : Option ApprovalRow} → Changes o p → Change p q → Changes o q

pub Changes-trans : {o p q : Option ApprovalRow} → Changes o p → Changes p q → Changes o q
Changes-trans s here = s
Changes-trans s (next t c) = next (Changes-trans s t) c

-- No id is listed twice.
abbrev pub Distinct : List ApprovalRow → Type 0
Distinct [] = Unit
Distinct (a ∷ rows) = All (λ (b : ApprovalRow). b.id ≢ a.id) rows × Distinct rows

ids_update :
    (x : String) (r : ApprovalRow) (rows : List ApprovalRow)
    → All (λ (b : ApprovalRow). b.id ≢ x) rows
    → All (λ (b : ApprovalRow). b.id ≢ x) (update approval_key r rows)
unfolding update
ids_update x r [] h = tt
ids_update x r (s ∷ rows) h = elim (Bool-cases (str_eq s.id r.id)) [
  | inl hit ↦ rw hit (rw (← (eq_iff s.id r.id).0 hit) h.0, ids_update x r rows h.1)
  | inr miss ↦ rw miss (h.0, ids_update x r rows h.1)
]

pub Distinct-update :
    (r : ApprovalRow) (rows : List ApprovalRow)
    → Distinct rows
    → Distinct (update approval_key r rows)
unfolding update
Distinct-update r [] h = tt
Distinct-update r (s ∷ rows) h = elim (Bool-cases (str_eq s.id r.id)) [
  | inl hit ↦
      rw hit
        (rw (← (eq_iff s.id r.id).0 hit) (ids_update s.id r rows h.0), Distinct-update r rows h.1)
  | inr miss ↦ rw miss (ids_update s.id r rows h.0, Distinct-update r rows h.1)
]

ids_of_none :
    (x : String) (rows : List ApprovalRow)
    → find approval_key x rows ≡ none
    → All (λ (b : ApprovalRow). b.id ≢ x) rows
unfolding find
ids_of_none x [] e = tt
ids_of_none x (s ∷ rows) e = elim (Bool-cases (str_eq s.id x)) [
  | inl hit ↦ absurd (ground arith)
  | inr miss ↦ (ground (arith, eq_iff s.id x), ids_of_none x rows (rw miss at e))
]

-- A row with a new id may be added.
pub Distinct-append :
    (r : ApprovalRow) (rows : List ApprovalRow)
    → find approval_key r.id rows ≡ none
    → Distinct rows
    → Distinct (rows ++ r ∷ [])
Distinct-append r rows fresh h = go rows (ids_of_none r.id rows fresh) h
  where
    go :
        (rows : List ApprovalRow)
        → All (λ (b : ApprovalRow). b.id ≢ r.id) rows
        → Distinct rows
        → Distinct (rows ++ r ∷ [])
    go [] new h = (tt, tt)
    go (s ∷ rows) new h = (
      All-append (λ (b : ApprovalRow). b.id ≢ s.id) rows (r ∷ []) h.0 ((λ e. new.0 (sym e)), tt),
      go rows new.1 h.1,
    )

-- The states that an approval reaches only through a reviewer's consent.
abbrev pub is_gated : ApprovalState → Bool
is_gated approved = true
is_gated resuming = true
is_gated completed = true
is_gated failed = true
is_gated _ = false

-- A decision to approve the row `k`, by an identity other than its creator.
abbrev pub Consents : String → String → DecisionRow → Type 0
Consents k creator e = (e.approval_id ≡ k) × (e.decision ≡ "APPROVE") × (e.reviewer_id ≢ creator)

-- Every row in a gated state has such a decision on record.
abbrev pub IsSanctioned : Db → Type 0
IsSanctioned db =
    (k : String) (a : ApprovalRow)
    → get_approval k db ≡ some a
    → is_gated a.state ≡ true
    → Any (Consents k a.creator_identity_id) db.decisions

-- Every row changes by steps, and decisions and audit events are only added.
pub record Evolves (db db' : Db) : Type 0 where
  pub rows : (k : String) → Changes (get_approval k db) (get_approval k db')
  pub decided : (more : List DecisionRow) × (db'.decisions ≡ db.decisions ++ more)
  pub logged : (more : List AuditEventRow) × (db'.events ≡ db.events ++ more)
  pub distinct : Distinct db.approvals → Distinct db'.approvals
  pub sanctioned : IsSanctioned db → IsSanctioned db'

pub Evolves-refl : (db : Db) → Evolves db db
Evolves-refl db = record {
  rows = λ k. here;
  decided = ([], sym (append-nil db.decisions));
  logged = ([], sym (append-nil db.events));
  distinct = λ h. h;
  sanctioned = λ h. h;
}

pub Evolves-trans : {d e f : Db} → Evolves d e → Evolves e f → Evolves d f
Evolves-trans {d} {e} {f} s t = record {
  rows = λ k. Changes-trans (s.rows k) (t.rows k);
  decided = (
    s.decided.0 ++ t.decided.0,
    t.decided.1 ∙ rw (s.decided.1) (append_assoc d.decisions s.decided.0 t.decided.0),
  );
  logged = (
    s.logged.0 ++ t.logged.0,
    t.logged.1 ∙ rw (s.logged.1) (append_assoc d.events s.logged.0 t.logged.0),
  );
  distinct = λ h. t.distinct (s.distinct h);
  sanctioned = λ h. t.sanctioned (s.sanctioned h);
}

-- The write of a row that turns one that is there, with any change of the other tables.
pub turn-rows :
    (a b : ApprovalRow) (db : Db)
    → get_approval a.id db ≡ some a
    → Edge a.state b.state
    → b.resume_attempts ≡ a.resume_attempts + claims b.state
    → Kept a b
    → (k : String) → Changes (get_approval k db) (get_approval k (with_approval b db))
turn-rows a b db found e n kept k = elim (Bool-cases (str_eq b.id k)) [
  | inl same ↦
      let k_is : b.id ≡ k = (eq_iff b.id k).0 same in
      let old : get_approval k db ≡ some a = rw (← k_is, kept.id) found in
      let at_b : get_approval b.id db ≡ some a = rw (kept.id) found in
      let new : get_approval k (with_approval b db) ≡ some b =
        get-with_approval k a b db at_b ∙ rw same in
      next here (turn a b old new e n kept)
  | inr other ↦
      let at_b : get_approval b.id db ≡ some a = rw (kept.id) found in
      let new : get_approval k (with_approval b db) ≡ get_approval k db =
        get-with_approval k a b db at_b ∙ rw other in
      rw new here
]

-- Consent stays on record when a row turns: the new row's state is not gated, or the old one's was,
-- or the consent is among the decisions `ds` that are added.
abbrev pub HasConsent : ApprovalRow → ApprovalRow → List DecisionRow → Type 0
HasConsent a b ds =
    is_gated b.state ≡ true
    → (is_gated a.state ≡ true) ⊎ Any (Consents a.id a.creator_identity_id) ds

pub turn-IsSanctioned :
    (a b : ApprovalRow) (db db' : Db) (ds : List DecisionRow)
    → get_approval a.id db ≡ some a
    → Kept a b
    → HasConsent a b ds
    → db'.approvals ≡ update approval_key b db.approvals
    → db'.decisions ≡ db.decisions ++ ds
    → IsSanctioned db
    → IsSanctioned db'
turn-IsSanctioned a b db db' ds found kept consent rows decisions old k r at_k gated =
    elim (Bool-cases (str_eq b.id k)) [
      | inl same ↦
          let is_b : some b ≡ some r = sym (now ∙ rw same) ∙ at_k in
          let same_row : b ≡ r = cc is_b in
          let k_is : a.id ≡ k = sym kept.id ∙ (eq_iff b.id k).0 same in
          let creator : r.creator_identity_id ≡ a.creator_identity_id =
            ap (λ (x : ApprovalRow). x.creator_identity_id) (sym same_row) ∙ kept.creator in
          let gated_b : is_gated b.state ≡ true = rw same_row gated in
          let consented : Any (Consents a.id a.creator_identity_id) (db.decisions ++ ds) =
            elim (consent gated_b) [
              | inl before ↦ Any-append_left _ db.decisions ds (old a.id a found before)
              | inr added ↦ Any-append_right _ db.decisions ds added
            ] in
          rw (decisions, creator, ← k_is) consented
      | inr other ↦
          let old_k : get_approval k db ≡ some r = sym (now ∙ rw other) ∙ at_k in
          rw decisions (Any-append_left _ db.decisions ds (old k r old_k gated))
    ]
  where
    at_b : get_approval b.id db ≡ some a
    at_b = rw (kept.id) found

    now : get_approval k db' ≡ (if str_eq b.id k then some b else get_approval k db)
    now = rw rows (get-with_approval k a b db at_b)
