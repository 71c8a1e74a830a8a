-- ===== src/Transform/Merge.antt =====
-- The merged spans of app/transform.py: in order, apart, and covering every span that was found.
use real_guard_v.Prelude.{
  ℕ, ◌≤◌, ◌<◌, ◌≡◌, refl, sym, arith, true, false, List, [], ◌∷◌, All, All-imp, Any, Any-imp, ltb,
  if_both, inl, inr, Bool-cases,
}
use mathlib.Core.Path.{subst}
use real_guard_v.Transform.{
  RedactionSpan, sensitivity, sort_spans, min, larger, join, merge_onto, merge_sorted,
  merge_overlapping,
}
use real_guard_v.Transform.Sorting.{Rising, Rising-le, sort-Rising, sort-All, sort-All_back}

-- A span that is not empty, and a span inside another that is at least as sensitive.
abbrev pub IsSpan : RedactionSpan → Type 0
IsSpan s = s.start < s.end

abbrev pub Covers : RedactionSpan → RedactionSpan → Type 0
Covers s t = (t.start ≤ s.start) × (s.end ≤ t.end) × (sensitivity s.label ≤ sensitivity t.label)

-- The spans stand in order, from the offset `p` on, and no two overlap.
abbrev pub Apart : ℕ → List RedactionSpan → Type 0
Apart p [] = Unit
Apart p (s ∷ spans) = (p ≤ s.start) × (s.start < s.end) × Apart s.end spans

merge_over :
    (last s : RedactionSpan) (spans : List RedactionSpan)
    → ltb s.start last.end ≡ true
    → merge_onto last (s ∷ spans) ≡ merge_onto (join last s) spans
unfolding merge_onto
merge_over last s spans e = rw (e, merge_onto) refl

merge_apart :
    (last s : RedactionSpan) (spans : List RedactionSpan)
    → ltb s.start last.end ≡ false
    → merge_onto last (s ∷ spans) ≡ last ∷ merge_onto s spans
unfolding merge_onto
merge_apart last s spans e = rw (e, merge_onto) refl

merge-Apart :
    (p : ℕ) (last : RedactionSpan) (spans : List RedactionSpan)
    → p ≤ last.start
    → IsSpan last
    → Rising last.start spans
    → All IsSpan spans
    → Apart p (merge_onto last spans)
unfolding merge_onto
merge-Apart p last [] le own rising all_spans = (le, own, tt)
merge-Apart p last (s ∷ spans) le own rising all_spans = elim (Bool-cases (ltb s.start last.end)) [
  | inl over ↦ subst (Apart p) (sym (merge_over last s spans over)) (
      merge-Apart p (join last s) spans (ground arith) (ground arith)
        (Rising-le spans (ground arith) rising.1) all_spans.1)
  | inr apart ↦
      subst (Apart p) (sym (merge_apart last s spans apart))
        (le, own, merge-Apart last.end s spans (ground arith) all_spans.0 rising.1 all_spans.1)
]

not_less : (a b : ℕ) → ltb a b ≡ false → b ≤ a
not_less a b e = ground arith

less : (a b : ℕ) → ltb a b ≡ true → a ≤ b
less a b e = ground arith

join-label :
    (s t : RedactionSpan)
    → (sensitivity s.label ≤ sensitivity (join s t).label)
      × (sensitivity t.label ≤ sensitivity (join s t).label)
join-label s t =
    if_both (λ l. (sensitivity s.label ≤ sensitivity l) × (sensitivity t.label ≤ sensitivity l))
      (ltb (sensitivity s.label) (sensitivity t.label))
      (λ e. (less (sensitivity s.label) (sensitivity t.label) e, le_refl (sensitivity t.label)))
      (λ e. (le_refl (sensitivity s.label), not_less (sensitivity s.label) (sensitivity t.label) e))
  where
    le_refl : (n : ℕ) → n ≤ n
    le_refl n = omega arith

min-le : (a b : ℕ) → (min a b ≤ a) × (min a b ≤ b)
min-le a b = (ground arith, ground arith)

larger-le : (a b : ℕ) → (a ≤ larger a b) × (b ≤ larger a b)
larger-le a b = (ground arith, ground arith)

le_trans : {a b c : ℕ} → a ≤ b → b ≤ c → a ≤ c
le_trans h k = omega arith

join-Covers_left : (s t u : RedactionSpan) → Covers (join s t) u → Covers s u
join-Covers_left s t u (begins, ends, rank) = (
  le_trans begins (min-le s.start t.start).0,
  le_trans (larger-le s.end t.end).0 ends,
  le_trans (join-label s t).0 rank,
)

join-Covers_right : (s t u : RedactionSpan) → Covers (join s t) u → Covers t u
join-Covers_right s t u (begins, ends, rank) = (
  le_trans begins (min-le s.start t.start).1,
  le_trans (larger-le s.end t.end).1 ends,
  le_trans (join-label s t).1 rank,
)

Covers-refl : (s : RedactionSpan) → Covers s s
Covers-refl s = (le s.start, le s.end, le (sensitivity s.label))
  where
    le : (n : ℕ) → n ≤ n
    le n = omega arith

-- `last` and every later span are covered by a merged span.
abbrev AllCovered : RedactionSpan → List RedactionSpan → List RedactionSpan → Type 0
AllCovered last spans ms = Any (Covers last) ms × All (λ s. Any (Covers s) ms) spans

merge-Covers :
    (last : RedactionSpan) (spans : List RedactionSpan)
    → AllCovered last spans (merge_onto last spans)
unfolding merge_onto
merge-Covers last [] = (inl (Covers-refl last), tt)
merge-Covers last (s ∷ spans) = elim (Bool-cases (ltb s.start last.end)) [
  | inl over ↦
      let ms = merge_onto (join last s) spans in
      let (joined, rest) = merge-Covers (join last s) spans in
      let same : merge_onto last (s ∷ spans) ≡ ms = merge_over last s spans over in
      subst (AllCovered last (s ∷ spans)) (sym same) (
        Any-imp (Covers (join last s)) (Covers last) ms (λ t c. join-Covers_left last s t c) joined,
        (
          Any-imp (Covers (join last s)) (Covers s) ms (λ t c. join-Covers_right last s t c) joined,
          rest,
        ),
      )
  | inr apart ↦
      let ms = merge_onto s spans in
      let (own, rest) = merge-Covers s spans in
      let same : merge_onto last (s ∷ spans) ≡ last ∷ ms = merge_apart last s spans apart in
      subst (AllCovered last (s ∷ spans)) (sym same) (
        inl (Covers-refl last),
        (
          inr own,
          All-imp (λ t. Any (Covers t) ms) (λ t. Any (Covers t) (last ∷ ms)) spans (λ t c. inr c)
              rest,
        ),
      )
]

sorted-Apart :
    (spans : List RedactionSpan) → Rising 0 spans → All IsSpan spans → Apart 0 (merge_sorted spans)
unfolding merge_sorted
sorted-Apart [] rising h = tt
sorted-Apart (s ∷ spans) rising h = merge-Apart 0 s spans (omega arith) h.0 rising.1 h.1

sorted-Covers : (spans : List RedactionSpan) → All (λ s. Any (Covers s) (merge_sorted spans)) spans
unfolding merge_sorted
sorted-Covers [] = tt
sorted-Covers (s ∷ spans) = merge-Covers s spans

merge_onto-ends :
    (n : ℕ) (last : RedactionSpan) (spans : List RedactionSpan)
    → last.end ≤ n
    → All (λ (s : RedactionSpan). s.end ≤ n) spans
    → All (λ (s : RedactionSpan). s.end ≤ n) (merge_onto last spans)
unfolding merge_onto
merge_onto-ends n last [] h hs = (h, tt)
merge_onto-ends n last (s ∷ spans) h hs = elim (Bool-cases (ltb s.start last.end)) [
  | inl over ↦
      subst (All (λ (t : RedactionSpan). t.end ≤ n)) (sym (merge_over last s spans over))
        (merge_onto-ends n (join last s) spans (larger_bound last.end s.end n h hs.0) hs.1)
  | inr apart ↦
      subst (All (λ (t : RedactionSpan). t.end ≤ n)) (sym (merge_apart last s spans apart))
        (h, merge_onto-ends n s spans hs.0 hs.1)
]
  where
    larger_bound : (a b n : ℕ) → a ≤ n → b ≤ n → larger a b ≤ n
    larger_bound a b n h k = ground arith

sorted-ends :
    (n : ℕ) (spans : List RedactionSpan)
    → All (λ (s : RedactionSpan). s.end ≤ n) spans
    → All (λ (s : RedactionSpan). s.end ≤ n) (merge_sorted spans)
unfolding merge_sorted
sorted-ends n [] h = tt
sorted-ends n (s ∷ spans) h = merge_onto-ends n s spans h.0 h.1

-- A bound of the ends of the spans is one of the merged spans.
pub merge-ends :
    (n : ℕ) (spans : List RedactionSpan)
    → All (λ (s : RedactionSpan). s.end ≤ n) spans
    → All (λ (s : RedactionSpan). s.end ≤ n) (merge_overlapping spans)
unfolding merge_overlapping
merge-ends n spans h =
    sorted-ends n (sort_spans spans) (sort-All (λ (s : RedactionSpan). s.end ≤ n) spans h)

-- The merged spans stand in order and no two overlap, and every span that was found lies in a merged
-- span whose label is at least as sensitive. (The spans found are not empty.)
pub merge-Apart-Covers :
    (spans : List RedactionSpan)
    → All IsSpan spans
    → Apart 0 (merge_overlapping spans) × All (λ s. Any (Covers s) (merge_overlapping spans)) spans
unfolding merge_overlapping
merge-Apart-Covers spans h = (
  sorted-Apart (sort_spans spans) (sort-Rising spans) (sort-All IsSpan spans h),
  sort-All_back _ spans (sorted-Covers (sort_spans spans)),
)
