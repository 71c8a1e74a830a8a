-- ===== src/Store/Table.antt =====
-- A table with a unique text column: the lookup by that column (`session.get`,
-- `filter_by(...).one_or_none()`), the write of a changed row, and the insertion.
use real_guard_v.Prelude.{
  String, ◌≡◌, refl, Option, none, some, List, [], ◌∷◌, ◌++◌, arith, str_eq, eq_iff, if◌then◌else◌,
  is_some, All, inl, inr, Bool-cases,
}
use mathlib.Core.Path.{subst}

module _ {R : Type 0} (key : R → String) where
  unfoldable pub find : String → List R → Option R
  find k [] = none
  find k (r ∷ rows) = if str_eq (key r) k then some r else find k rows

  -- Every row with the key of `r` becomes `r`.
  unfoldable pub update : R → List R → List R
  update r [] = []
  update r (s ∷ rows) = (if str_eq (key s) (key r) then r else s) ∷ update r rows

  pub find-update :
      (k : String) (r : R) (rows : List R)
      → find k (update r rows)
        ≡ (if str_eq (key r) k then if is_some (find k rows) then some r else none else find k rows)
  unfolding find update
  find-update k r [] = ground arith
  find-update k r (s ∷ rows) =
      ground
        (arith, eq_iff (key r) k, eq_iff (key s) k, eq_iff (key s) (key r), find-update k r rows)

  pub find-append :
      (k : String) (rows more : List R)
      → find k (rows ++ more) ≡ (if is_some (find k rows) then find k rows else find k more)
  unfolding find
  find-append k [] more = refl
  find-append k (s ∷ rows) more = ground (arith, find-append k rows more)

  pub find-key : (k : String) (rows : List R) {r : R} → find k rows ≡ some r → key r ≡ k
  unfolding find
  find-key k [] h = ground arith
  find-key k (s ∷ rows) {r} h = ground (arith, eq_iff (key s) k, find-key k rows {r = r})

  -- What holds of every row holds of the row that is found.
  pub All-find :
      (P : R → Type 0) (k : String) (rows : List R) {r : R}
      → All P rows
      → find k rows ≡ some r
      → P r
  unfolding find
  All-find P k [] h e = ground arith
  All-find P k (s ∷ rows) {r} h e = elim (Bool-cases (str_eq (key s) k)) [
    | inl hit ↦ let same : s ≡ r = ground arith in subst P same h.0
    | inr miss ↦ All-find P k rows h.1 (rw miss at e)
  ]

  pub All-update :
      (P : R → Type 0) (r : R) (rows : List R) → P r → All P rows → All P (update r rows)
  unfolding update
  All-update P r [] p h = tt
  All-update P r (s ∷ rows) p h = elim (Bool-cases (str_eq (key s) (key r))) [
    | inl hit ↦ rw hit (p, All-update P r rows p h.1)
    | inr miss ↦ rw miss (h.0, All-update P r rows p h.1)
  ]
