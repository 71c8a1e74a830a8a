-- ===== src/Approvals/Evolution/Loops.antt =====
-- The two loops, the expiry sweep and the startup recovery: each row that a loop was given gets its
-- new state, and no other row changes. A loop walks rows that were read at its start, so this rests
-- on there being one row to an id.
use real_guard_v.Approvals.Recovery.{recover_row, recover_rows, recovered_state}
use mathlib.Core.List.{append-nil}
use real_guard_v.Json.{num, pos, field, end}
use real_guard_v.Approvals.Evolution.{Evolves-turn}
use real_guard_v.Approvals.Evolution.Claims.{expire_row_ok, expire_row-Evolves}
use real_guard_v.Prelude.{
  ℕ, ◌+◌, ◌≡◌, refl, ◌≢◌, ◌∙◌, sym, String, Bool, some, List, [], ◌∷◌, arith, str_eq, eq_iff,
  if◌then◌else◌, All, All-imp_both, All-filter, filter, Bool-cases, inl, inr, if_both, ap, length,
  ltb,
}
use text.Mathlib.TextPositions.{eq_refl}
use real_guard_v.Errors.{Result, ok}
use real_guard_v.Store.{Db, ApprovalRow, ApprovalState, expired, resuming}
use real_guard_v.Store.Tx.{get_approval, approval_key, >>=-eq-ok}
use real_guard_v.Store.Table.{find, update}
use real_guard_v.Approvals.{Hashing, Draws, audit, system, change}
use real_guard_v.Approvals.Effects.{with_approval, get-with_approval, log, mirror, set_status-eq}
use real_guard_v.Approvals.Rows.{
  Evolves, Evolves-refl, Evolves-trans, Edge, drawn, gave_up, claims, Distinct,
}
use real_guard_v.Approvals.Expiry.{expire_row, expire_rows}

-- The rows of the list are the rows of the table under their ids.
abbrev pub Current : Db → List ApprovalRow → Type 0
Current db = All (λ a. get_approval a.id db ≡ some a)

pub Distinct-filter :
    (p : ApprovalRow → Bool) (rows : List ApprovalRow) → Distinct rows → Distinct (filter p rows)
Distinct-filter p [] h = tt
Distinct-filter p (a ∷ rows) h =
    if_both Distinct (p a)
      (λ _. (All-filter (λ b. b.id ≢ a.id) p rows h.0, Distinct-filter p rows h.1))
      (λ _. Distinct-filter p rows h.1)

find-cons_ne :
    (a b : ApprovalRow) (rows : List ApprovalRow)
    → b.id ≢ a.id
    → find approval_key b.id rows ≡ some b
    → find approval_key b.id (a ∷ rows) ≡ some b
unfolding find
find-cons_ne a b rows ne e = ground (arith, eq_iff a.id b.id)

find-cons_self :
    (a : ApprovalRow) (rows : List ApprovalRow) → find approval_key a.id (a ∷ rows) ≡ some a
unfolding find
find-cons_self a rows = rw (eq_refl a.id)

-- With one row to an id, every row is found under its id.
pub Distinct-find :
    (rows : List ApprovalRow) → Distinct rows → All (λ a. find approval_key a.id rows ≡ some a) rows
Distinct-find [] h = tt
Distinct-find (a ∷ rows) h = (
  find-cons_self a rows,
  All-imp_both (λ b. b.id ≢ a.id) (λ b. find approval_key b.id rows ≡ some b) _ rows
      (λ b ne e. find-cons_ne a b rows ne e) h.0 (Distinct-find rows h.1),
)

pub Current-filter :
    (p : ApprovalRow → Bool) (db : Db) → Distinct db.approvals → Current db (filter p db.approvals)
Current-filter p db h =
    All-filter (λ a. get_approval a.id db ≡ some a) p db.approvals (Distinct-find db.approvals h)

-- What a loop over `rows` with the new states `to` has done.
pub record Looped (to : ApprovalRow → ApprovalState) (db : Db) (rows : List ApprovalRow) (db' : Db)
    : Type 0 where
  pub evolves : Evolves db db'
  pub others : (k : String) → All (λ a. a.id ≢ k) rows → get_approval k db' ≡ get_approval k db
  pub done :
      All
        (λ a. (t : ℕ) × (get_approval a.id db' ≡ some (record a { state = to a; updated_at = t })))
        rows

module _ (to : ApprovalRow → ApprovalState) (a : ApprovalRow) (t : ℕ) (db mid : Db)
    (found : get_approval a.id db ≡ some a)
    (wrote : mid.approvals
      ≡ update approval_key (record a { state = to a; updated_at = t }) db.approvals) where
  written :
      (k : String)
      → get_approval k mid ≡ (
          if str_eq a.id k
          then some (record a { state = to a; updated_at = t })
          else get_approval k db)
  written k = rw wrote (get-with_approval k a (record a { state = to a; updated_at = t }) db found)

  written_ne : (k : String) → a.id ≢ k → get_approval k mid ≡ get_approval k db
  written_ne k ne = ground (arith, written k, eq_iff a.id k)

  Current-step :
      (rows : List ApprovalRow)
      → All (λ (b : ApprovalRow). b.id ≢ a.id) rows
      → Current db rows
      → Current mid rows
  Current-step rows apart current =
      All-imp_both (λ b. b.id ≢ a.id) (λ b. get_approval b.id db ≡ some b) _ rows
        (λ b ne e. written_ne b.id (λ s. ne (sym s)) ∙ e) apart current

  Looped-cons :
      (rows : List ApprovalRow) (db' : Db)
      → Evolves db mid
      → All (λ (b : ApprovalRow). b.id ≢ a.id) rows
      → Looped to mid rows db'
      → Looped to db (a ∷ rows) db'
  Looped-cons rows db' first apart rest = record {
    evolves = Evolves-trans first rest.evolves;
    others = λ k ne. rest.others k ne.1 ∙ written_ne k ne.0;
    done = ((t, rest.others a.id apart ∙ written a.id ∙ rw (eq_refl a.id)), rest.done);
  }

module _ (h : Hashing) where
  abbrev pub to_expired : ApprovalRow → ApprovalState
  to_expired a = expired

  -- The sweep's loop expires the rows that it was given, and counts them.
  pub expire_rows-Looped :
      (draws : ℕ → Draws) (count : ℕ) (rows : List ApprovalRow) (db : Db) {n : ℕ}
      → Distinct rows
      → Current db rows
      → (expire_rows h draws count rows db).0 ≡ ok n
      → Looped to_expired db rows (expire_rows h draws count rows db).1 × (n ≡ count + length rows)
  unfolding expire_rows
  expire_rows-Looped draws count [] db distinct current e =
      (record { evolves = Evolves-refl db; others = λ k ne. refl; done = tt }, ground arith)
  expire_rows-Looped draws count (a ∷ rows) db {n} distinct current e =
      let d = draws count in
      let (_, first, went) =
        >>=-eq-ok (expire_row h d a) (λ _. expire_rows h draws (count + 1) rows) db e in
      let mid = (expire_row h d a db).1 in
      let (_, after) = expire_row_ok h d a db first in
      let wrote : mid.approvals
          ≡ update approval_key (record a { state = expired; updated_at = d.updated })
              db.approvals =
        ap (λ (p : Result Unit × Db). p.1.approvals) after in
      let (rest, counted) =
        expire_rows-Looped draws (count + 1) rows mid distinct.1
          (Current-step to_expired a d.updated db mid current.0 wrote rows distinct.0 current.1)
          (ap (λ (p : Result ℕ × Db). p.0) (sym went) ∙ e) in
      (
        rw went (
            Looped-cons to_expired a d.updated db mid current.0 wrote rows _
              (expire_row-Evolves h d a db current.0 first) distinct.0 rest),
        omega arith,
      )

  -- One round of the recovery, on a row that is there and in RESUMING.
  module _ (limit now : ℕ) where
    recover_row_ok :
        (d : Draws) (a : ApprovalRow) (db : Db)
        → (recover_row h limit now d a db).0 ≡ ok tt
        → let to_state = recovered_state limit a in
          recover_row h limit now d a db ≡ (
            ok tt,
            log h d a.id
                (some a.transaction_id)
                a.transaction_id
                "STARTUP_RECONCILE"
                (system "startup")
                (change resuming to_state
                  (field "resume_attempts" (num (pos a.resume_attempts)) end))
                (record (with_approval (record a { state = to_state; updated_at = now }) db) {
                  transactions = mirror a.transaction_id to_state db.transactions;
                }),
          )
    unfolding recover_row audit
    recover_row_ok d a db e = ground (
      arith,
      set_status-eq a.transaction_id (recovered_state limit a)
          (with_approval (record a { state = recovered_state limit a; updated_at = now }) db),
    )

    recovered-Edge : (a : ApprovalRow) → a.state ≡ resuming → Edge a.state (recovered_state limit a)
    recovered-Edge a e = elim (Bool-cases (ltb a.resume_attempts limit)) [
      | inl more ↦ rw (e, more) (drawn refl)
      | inr used_up ↦ rw used_up (gave_up e refl)
    ]

    unclaimed : (a : ApprovalRow) → claims (recovered_state limit a) ≡ 0
    unclaimed a = ground arith

    recover_row-Evolves :
        (d : Draws) (a : ApprovalRow) (db : Db)
        → a.state ≡ resuming
        → get_approval a.id db ≡ some a
        → (recover_row h limit now d a db).0 ≡ ok tt
        → Evolves db (recover_row h limit now d a db).1
    recover_row-Evolves d a db stuck found e = rw (recover_row_ok d a db e) (
        Evolves-turn a (record a { state = recovered_state limit a; updated_at = now }) db _ [] _
          found (recovered-Edge a stuck) (omega (arith, unclaimed a))
          (record {
            id = refl;
            transaction_id = refl;
            payload = refl;
            args_hash = refl;
            creator = refl;
            expiry = refl;
          })
          (λ _. inl (rw stuck refl)) refl (sym (append-nil db.decisions)) refl)

    -- The recovery's loop gives each row its new state, and counts the rows.
    pub recover_rows-Looped :
        (draws : ℕ → Draws) (count : ℕ) (rows : List ApprovalRow) (db : Db) {n : ℕ}
        → All (λ (a : ApprovalRow). a.state ≡ resuming) rows
        → Distinct rows
        → Current db rows
        → (recover_rows h limit now draws count rows db).0 ≡ ok n
        → Looped (recovered_state limit) db rows (recover_rows h limit now draws count rows db).1
          × (n ≡ count + length rows)
    unfolding recover_rows
    recover_rows-Looped draws count [] db stuck distinct current e =
        (record { evolves = Evolves-refl db; others = λ k ne. refl; done = tt }, ground arith)
    recover_rows-Looped draws count (a ∷ rows) db {n} stuck distinct current e =
        let d = draws count in
        let (_, first, went) =
          >>=-eq-ok (recover_row h limit now d a)
            (λ _. recover_rows h limit now draws (count + 1) rows) db e in
        let mid = (recover_row h limit now d a db).1 in
        let wrote : mid.approvals
            ≡ update approval_key (record a { state = recovered_state limit a; updated_at = now })
                db.approvals =
          ap (λ (p : Result Unit × Db). p.1.approvals) (recover_row_ok d a db first) in
        let (rest, counted) =
          recover_rows-Looped draws (count + 1) rows mid stuck.1 distinct.1
            (Current-step (recovered_state limit) a now db mid current.0 wrote rows distinct.0
              current.1)
            (ap (λ (p : Result ℕ × Db). p.0) (sym went) ∙ e) in
        (
          rw went (
              Looped-cons (recovered_state limit) a now db mid current.0 wrote rows _
                (recover_row-Evolves d a db stuck.0 current.0 first) distinct.0 rest),
          omega arith,
        )
