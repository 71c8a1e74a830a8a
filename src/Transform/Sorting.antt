-- ===== src/Transform/Sorting.antt =====
-- The spans of app/transform.py sorted by their starts.
use real_guard_v.Prelude.{ℕ, ◌≤◌, arith, List, [], ◌∷◌, All, leb, if_both, inl, inr, Bool-cases}
use real_guard_v.Transform.{RedactionSpan, insert_span, sort_spans}

-- The starts do not decrease.
abbrev pub Rising : ℕ → List RedactionSpan → Type 0
Rising p [] = Unit
Rising p (s ∷ spans) = (p ≤ s.start) × Rising s.start spans

pub Rising-le : {p q : ℕ} (spans : List RedactionSpan) → q ≤ p → Rising p spans → Rising q spans
Rising-le [] le h = tt
Rising-le (s ∷ spans) le h = (omega arith, h.1)

insert-Rising :
    (p : ℕ) (s : RedactionSpan) (spans : List RedactionSpan)
    → p ≤ s.start
    → Rising p spans
    → Rising p (insert_span s spans)
insert-Rising p s [] le h = (le, tt)
insert-Rising p s (t ∷ spans) le h =
    if_both (Rising p) (leb s.start t.start) (λ e. (le, (ground arith, h.1)))
      (λ e. (h.0, insert-Rising t.start s spans (ground arith) h.1))

pub sort-Rising : (spans : List RedactionSpan) → Rising 0 (sort_spans spans)
sort-Rising [] = tt
sort-Rising (s ∷ spans) = insert-Rising 0 s (sort_spans spans) (omega arith) (sort-Rising spans)

insert-All :
    (P : RedactionSpan → Type 0) (s : RedactionSpan) (spans : List RedactionSpan)
    → P s
    → All P spans
    → All P (insert_span s spans)
insert-All P s [] h hs = (h, tt)
insert-All P s (t ∷ spans) h hs =
    if_both (All P) (leb s.start t.start) (λ e. (h, hs)) (λ e. (hs.0, insert-All P s spans h hs.1))

pub sort-All :
    (P : RedactionSpan → Type 0) (spans : List RedactionSpan)
    → All P spans
    → All P (sort_spans spans)
sort-All P [] h = tt
sort-All P (s ∷ spans) h = insert-All P s (sort_spans spans) h.0 (sort-All P spans h.1)

-- What holds of the sorted spans holds of the spans.
insert-All_back :
    (P : RedactionSpan → Type 0) (s : RedactionSpan) (spans : List RedactionSpan)
    → All P (insert_span s spans)
    → P s × All P spans
insert-All_back P s [] h = h
insert-All_back P s (t ∷ spans) h = elim (Bool-cases (leb s.start t.start)) [
  | inl first ↦ let h' : All P (s ∷ t ∷ spans) = rw first at h in h'
  | inr later ↦
      let h' : All P (t ∷ insert_span s spans) = rw later at h in
      let (own, rest) = insert-All_back P s spans h'.1 in (own, (h'.0, rest))
]

pub sort-All_back :
    (P : RedactionSpan → Type 0) (spans : List RedactionSpan)
    → All P (sort_spans spans)
    → All P spans
sort-All_back P [] h = tt
sort-All_back P (s ∷ spans) h =
    let (own, rest) = insert-All_back P s (sort_spans spans) h in (own, sort-All_back P spans rest)
