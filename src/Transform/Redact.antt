-- ===== src/Transform/Redact.antt =====
-- What redaction leaves of a text: app/transform.py.
use real_guard_v.Prelude.{
  ℕ, zero, suc, ◌-◌, ◌≤◌, ◌≡◌, refl, ◌∙◌, sym, ap, arith, List, [], ◌∷◌, ◌++◌, length, All, Any,
}
use mathlib.Core.List.{append_assoc}
use real_guard_v.Transform.{
  RedactionSpan, take, drop, placeholder, splice, splice_all, Patterns, find_redaction_spans,
  raw_spans, apply_redact,
}
use real_guard_v.Transform.Merge.{Apart, IsSpan, Covers, merge-Apart-Covers, merge-ends}

minus : (p n : ℕ) → n - p ≡ suc n - suc p
minus p n = omega arith

minus_zero : (n : ℕ) → n ≡ n - 0
minus_zero n = omega arith

module _ {A : Type 0} where
  take-drop : (n : ℕ) (xs : List A) → take n xs ++ drop n xs ≡ xs
  take-drop zero xs = refl
  take-drop (suc n) [] = refl
  take-drop (suc n) (x ∷ xs) = ap (λ t. x ∷ t) (take-drop n xs)

  -- With at least `n` entries in front, what follows them does not matter to `take`.
  take-append :
      (n m : ℕ) (xs ys : List A) → n ≤ m → m ≤ length xs → take n (take m xs ++ ys) ≡ take n xs
  take-append zero m xs ys h k = refl
  take-append (suc n) zero xs ys h k = absurd (omega arith)
  take-append (suc n) (suc m) [] ys h k = absurd (omega arith)
  take-append (suc n) (suc m) (x ∷ xs) ys h k =
      ap (λ t. x ∷ t) (take-append n m xs ys (omega arith) (omega arith))

  drop-append : (m : ℕ) (xs ys : List A) → m ≤ length xs → drop m (take m xs ++ ys) ≡ ys
  drop-append zero xs ys k = refl
  drop-append (suc m) [] ys k = absurd (omega arith)
  drop-append (suc m) (x ∷ xs) ys k = drop-append m xs ys (omega arith)

  take-nil : (n : ℕ) → take {A = A} n [] ≡ []
  take-nil zero = refl
  take-nil (suc n) = refl

  take-split : (p n : ℕ) (xs : List A) → p ≤ n → take n xs ≡ take p xs ++ take (n - p) (drop p xs)
  take-split zero n xs h = ap (λ k. take k xs) (minus_zero n)
  take-split (suc p) zero xs h = absurd (omega arith)
  take-split (suc p) (suc n) [] h = sym (take-nil (suc n - suc p))
  take-split (suc p) (suc n) (x ∷ xs) h =
      ap (λ t. x ∷ t)
        (take-split p n xs (omega arith) ∙ ap (λ k. take p xs ++ take k (drop p xs)) (minus p n))

-- The text from the offset `p` on, each span replaced by its placeholder and the rest kept.
abbrev pub redacted : ℕ → List RedactionSpan → List ℕ → List ℕ
redacted p [] text = drop p text
redacted p (s ∷ spans) text =
    take (s.start - p) (drop p text) ++ (placeholder s ++ redacted s.end spans text)

abbrev pub Inside : List ℕ → RedactionSpan → Type 0
Inside text s = s.end ≤ length text

splice_all-redacted :
    (p : ℕ) (spans : List RedactionSpan) (text : List ℕ)
    → Apart p spans
    → All (Inside text) spans
    → splice_all spans text ≡ take p text ++ redacted p spans text
unfolding splice_all
splice_all-redacted p [] text apart inside = sym (take-drop p text)
splice_all-redacted p (s ∷ spans) text apart inside =
    let rest = redacted s.end spans text in
    ap (splice s) (splice_all-redacted s.end spans text apart.2 inside.1)
    ∙ ap (λ t. t ++ (placeholder s ++ drop s.end (take s.end text ++ rest)))
        (take-append s.start s.end text rest (omega arith) inside.0)
    ∙ ap (λ t. take s.start text ++ (placeholder s ++ t)) (drop-append s.end text rest inside.0)
    ∙ ap (λ t. t ++ (placeholder s ++ rest)) (take-split p s.start text apart.0)
    ∙ append_assoc (take p text) (take (s.start - p) (drop p text)) (placeholder s ++ rest)

apply_redact-splice :
    (p : Patterns) (text : List ℕ)
    → (apply_redact p text).0 ≡ splice_all (find_redaction_spans p text) text
unfolding apply_redact splice_all
apply_redact-splice p text = ground (arith)

-- Redaction replaces each merged span by its placeholder and keeps the text between them as it is;
-- the merged spans stand in order and apart, and every span that a pattern found lies in one that is
-- at least as sensitive. (What the patterns find is not empty, and in the text.)
pub redact-Covers :
    (p : Patterns) (text : List ℕ)
    → All IsSpan (raw_spans p text)
    → All (Inside text) (raw_spans p text)
    → let spans = find_redaction_spans p text in
      ((apply_redact p text).0 ≡ redacted 0 spans text)
      × Apart 0 spans
      × All (λ s. Any (Covers s) spans) (raw_spans p text)
unfolding find_redaction_spans
redact-Covers p text own inside =
    let (apart, covers) = merge-Apart-Covers (raw_spans p text) own in
    let ends = merge-ends (length text) (raw_spans p text) inside in
    (
      apply_redact-splice p text
          ∙ splice_all-redacted 0 (find_redaction_spans p text) text apart ends,
      apart,
      covers,
    )
