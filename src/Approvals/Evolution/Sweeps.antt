-- ===== src/Approvals/Evolution/Sweeps.antt =====
-- What the expiry sweep and the startup recovery do to the table.
use mathlib.Core.Path.{subst}
use real_guard_v.Prelude.{
  ℕ, ◌≡◌, refl, ◌≢◌, ◌∙◌, sym, String, Bool, true, false, some, List, [], ◌∷◌, arith, str_eq,
  if◌then◌else◌, All, All-imp, All-imp_both, All-filter_self, filter, Bool-cases, inl, inr, length,
  ltb,
}
use real_guard_v.Errors.{ok}
use real_guard_v.Store.{Db, ApprovalRow, expired, approved, failed, resuming}
use real_guard_v.Store.Tx.{
  get_approval, approval_key, immediate_transaction-ok, immediate_transaction-0,
}
use real_guard_v.Store.Table.{find}
use real_guard_v.Approvals.{Hashing, Draws, is_resuming}
use real_guard_v.Approvals.Rows.{Evolves, Distinct}
use real_guard_v.Approvals.Expiry.{is_elapsed, sweep_body, sweep_expired}
use real_guard_v.Approvals.Recovery.{recovered_state, recovery_body, reconcile_resuming_on_startup}
use real_guard_v.Approvals.Evolution.{immediate-Evolves}
use real_guard_v.Approvals.Evolution.Loops.{
  Looped, Distinct-filter, Current-filter, expire_rows-Looped, recover_rows-Looped, to_expired,
}

-- A row that the test passes over is none of the rows that the filter keeps.
others_of :
    (p : ApprovalRow → Bool) (db : Db) (k : String) (a : ApprovalRow)
    → Distinct db.approvals
    → get_approval k db ≡ some a
    → p a ≡ false
    → All (λ (b : ApprovalRow). b.id ≢ k) (filter p db.approvals)
others_of p db k a distinct found no_match =
    All-imp_both (λ b. p b ≡ true) (λ b. get_approval b.id db ≡ some b) _ (filter p db.approvals)
      (λ b pass there same.
        let at_k : get_approval k db ≡ some b =
          subst (λ x. get_approval x db ≡ some b) same there in
        ground arith)
      (All-filter_self p db.approvals) (Current-filter p db distinct)

All-filter_tail :
    (p : ApprovalRow → Bool) (P : ApprovalRow → Type 0) (s : ApprovalRow) (rows : List ApprovalRow)
    → All P (filter p (s ∷ rows))
    → All P (filter p rows)
All-filter_tail p P s rows h = elim (Bool-cases (p s)) [
  | inl pass ↦ let h' : All P (s ∷ filter p rows) = rw pass at h in h'.1
  | inr skip ↦ rw skip at h
]

-- What holds of the rows that the filter keeps holds of a row that passes the test.
kept_of :
    (p : ApprovalRow → Bool) (P : ApprovalRow → Type 0) (k : String) (rows : List ApprovalRow)
    (a : ApprovalRow)
    → All P (filter p rows)
    → find approval_key k rows ≡ some a
    → p a ≡ true
    → P a
unfolding find
kept_of p P k [] a h found pass = absurd (ground arith)
kept_of p P k (s ∷ rows) a h found pass = elim (Bool-cases (str_eq s.id k)) [
  | inl hit ↦
      let same : s ≡ a = ground arith in
      let pass' : p s ≡ true = rw same pass in
      let h' : All P (s ∷ filter p rows) = rw pass' at h in subst P same h'.0
  | inr miss ↦ kept_of p P k rows a (All-filter_tail p P s rows h) (rw miss at found) pass
]

resuming_of : (a : ApprovalRow) → is_resuming a.state ≡ true → a.state ≡ resuming
resuming_of a h = ground arith

not_resuming : (a : ApprovalRow) → a.state ≢ resuming → is_resuming a.state ≡ false
not_resuming a h = ground arith

module _ (h : Hashing) where
  sweep_body-Looped :
      (now : ℕ) (draws : ℕ → Draws) (db : Db) {n : ℕ}
      → Distinct db.approvals
      → (sweep_body h now draws db).0 ≡ ok n
      → let rows = filter (is_elapsed now) db.approvals in
        Looped (to_expired h) db rows (sweep_body h now draws db).1 × (n ≡ length rows)
  unfolding sweep_body
  sweep_body-Looped now draws db distinct e =
      let rows = filter (is_elapsed now) db.approvals in
      let (looped, counted) =
        expire_rows-Looped h draws 0 rows db
          (Distinct-filter (is_elapsed now) db.approvals distinct)
          (Current-filter (is_elapsed now) db distinct) e in
      (looped, omega arith)

  pub sweep_Evolves :
      (now : ℕ) (draws : ℕ → Draws) (db : Db)
      → Distinct db.approvals
      → Evolves db (sweep_expired h now draws db).1
  unfolding sweep_expired
  sweep_Evolves now draws db distinct =
      immediate-Evolves (sweep_body h now draws) db
        (record { at = λ n e. (sweep_body-Looped now draws db distinct e).0.evolves })

  -- A sweep that returns has moved every elapsed row that is pending or approved to EXPIRED, with
  -- no other column but the time of its update changed; it has left every other row as it was, and
  -- returns the number of rows that it moved. (There is one row to an id.)
  pub sweep_exact :
      (now : ℕ) (draws : ℕ → Draws) (db : Db) {n : ℕ}
      → Distinct db.approvals
      → (sweep_expired h now draws db).0 ≡ ok n
      → let db' = (sweep_expired h now draws db).1 in
        (n ≡ length (filter (is_elapsed now) db.approvals))
        × ((k : String) (a : ApprovalRow)
            → get_approval k db ≡ some a
            → (is_elapsed now a ≡ true
                → (t : ℕ) × (get_approval a.id db'
                    ≡ some (record a { state = expired; updated_at = t })))
              × (is_elapsed now a ≡ false → get_approval k db' ≡ some a))
  unfolding sweep_expired
  sweep_exact now draws db {n} distinct e =
      let e' : (sweep_body h now draws db).0 ≡ ok n =
        sym (immediate_transaction-0 (sweep_body h now draws) db) ∙ e in
      let (looped, counted) = sweep_body-Looped now draws db distinct e' in
      let committed = immediate_transaction-ok (sweep_body h now draws) db e' in
      (
        counted,
        λ k a found. rw committed (
          (λ late. kept_of (is_elapsed now) _ k db.approvals a looped.done found late),
          (λ early.
              looped.others k (others_of (is_elapsed now) db k a distinct found early) ∙ found),
        ),
      )

  recovery_body-Looped :
      (limit now : ℕ) (draws : ℕ → Draws) (db : Db) {n : ℕ}
      → Distinct db.approvals
      → (recovery_body h limit now draws db).0 ≡ ok n
      → let rows = filter (λ (a : ApprovalRow). is_resuming a.state) db.approvals in
        Looped (recovered_state limit) db rows (recovery_body h limit now draws db).1
        × (n ≡ length rows)
  unfolding recovery_body
  recovery_body-Looped limit now draws db distinct e =
      let stuck = λ (a : ApprovalRow). is_resuming a.state in
      let rows = filter stuck db.approvals in
      let (looped, counted) =
        recover_rows-Looped h limit now draws 0 rows db
          (All-imp (λ (a : ApprovalRow). is_resuming a.state ≡ true) _ rows
            (λ a held. resuming_of a held) (All-filter_self stuck db.approvals))
          (Distinct-filter stuck db.approvals distinct) (Current-filter stuck db distinct) e in
      (looped, omega arith)

  pub reconcile_Evolves :
      (limit now : ℕ) (draws : ℕ → Draws) (db : Db)
      → Distinct db.approvals
      → Evolves db (reconcile_resuming_on_startup h limit now draws db).1
  unfolding reconcile_resuming_on_startup
  reconcile_Evolves limit now draws db distinct =
      immediate-Evolves (recovery_body h limit now draws) db
        (record { at = λ n e. (recovery_body-Looped limit now draws db distinct e).0.evolves })

  -- A recovery that returns has moved every row in RESUMING back to APPROVED if its attempts are
  -- below the limit, and to FAILED otherwise, with no other column but the time of its update
  -- changed; it has left every other row as it was, and returns the number of rows that it moved.
  -- (There is one row to an id.)
  pub reconcile_exact :
      (limit now : ℕ) (draws : ℕ → Draws) (db : Db) {n : ℕ}
      → Distinct db.approvals
      → (reconcile_resuming_on_startup h limit now draws db).0 ≡ ok n
      → let db' = (reconcile_resuming_on_startup h limit now draws db).1 in
        (n ≡ length (filter (λ (a : ApprovalRow). is_resuming a.state) db.approvals))
        × ((k : String) (a : ApprovalRow)
            → get_approval k db ≡ some a
            → (a.state ≡ resuming
                → (t : ℕ) × (get_approval a.id db'
                    ≡ some (record a {
                      state = if ltb a.resume_attempts limit then approved else failed;
                      updated_at = t;
                    })))
              × (a.state ≢ resuming → get_approval k db' ≡ some a))
  unfolding reconcile_resuming_on_startup
  reconcile_exact limit now draws db {n} distinct e =
      let stuck = λ (a : ApprovalRow). is_resuming a.state in
      let e' : (recovery_body h limit now draws db).0 ≡ ok n =
        sym (immediate_transaction-0 (recovery_body h limit now draws) db) ∙ e in
      let (looped, counted) = recovery_body-Looped limit now draws db distinct e' in
      let committed = immediate_transaction-ok (recovery_body h limit now draws) db e' in
      (
        counted,
        λ k a found. rw committed (
          (λ held. kept_of stuck _ k db.approvals a looped.done found (rw held refl)),
          (λ free.
              looped.others k (others_of stuck db k a distinct found (not_resuming a free))
              ∙ found),
        ),
      )
