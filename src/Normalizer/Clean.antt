-- ===== src/Normalizer/Clean.antt =====
-- What a normalised text is like (app/normalizer.py), and that a text that is so is left alone by the
-- steps after NFKC.
use real_guard_v.Prelude.{
  ℕ, ◌<◌, ◌≤◌, ◌≡◌, refl, ◌∙◌, ap, arith, Bool, true, false, not, ◌&&◌, none, some, List, [], ◌∷◌,
  ◌==◌, All, Bool-cases, Option-cases, inl, inr,
}
use real_guard_v.Text.{strip, lstrip, rstrip}
use real_guard_v.Normalizer.{
  is_stripped, homoglyphs, find_glyph, fold_char, strip_chars, fold_homoglyphs, single_spaces,
  collapse_whitespace, tidy, normalize_text,
}
use real_guard_v.Normalizer.Spaces.{
  is_single, single_spaces-single, is_single_weaken, lstrip-single, lstrip_single,
  single_spaces_same, rstrip-single, rstrip_twice, All-single_spaces, All-lstrip, All-rstrip,
}

-- The entries of the table: a key outside ASCII, and a letter.
abbrev IsEntry : ℕ × ℕ → Type 0
IsEntry (k, v) = (128 ≤ k) × (v < 128)

homoglyphs-entries : All IsEntry homoglyphs
unfolding homoglyphs
homoglyphs-entries = omega arith

glyph-ascii :
    (c : ℕ) (table : List (ℕ × ℕ)) {v : ℕ}
    → All IsEntry table
    → find_glyph c table ≡ some v
    → v < 128
glyph-ascii c [] h e = ground arith
glyph-ascii c ((k, w) ∷ table) {v} h e = ground (arith, glyph-ascii c table {v = v} h.1)

ascii-glyph :
    (c : ℕ) (table : List (ℕ × ℕ)) → All IsEntry table → c < 128 → find_glyph c table ≡ none
ascii-glyph c [] h e = refl
ascii-glyph c ((k, w) ∷ table) h e = ground (arith, ascii-glyph c table h.1)

-- A character that is neither stripped nor folded.
abbrev pub is_visible : ℕ → Bool
is_visible c = not (is_stripped c) && fold_char c == c

ascii-kept : (c : ℕ) → c < 128 → is_stripped c ≡ false
unfolding is_stripped
ascii-kept c h = ground arith

ascii-visible : (c : ℕ) → c < 128 → is_visible c ≡ true
unfolding fold_char
ascii-visible c h = ground (arith, ascii-kept c h, ascii-glyph c homoglyphs homoglyphs-entries h)

fold-kept : (c : ℕ) → find_glyph c homoglyphs ≡ none → fold_char c ≡ c
unfolding fold_char
fold-kept c h = rw (h, fold_char) refl

fold-glyph : (c : ℕ) {v : ℕ} → find_glyph c homoglyphs ≡ some v → fold_char c ≡ v
unfolding fold_char
fold-glyph c h = rw (h, fold_char) refl

fold-visible : (c : ℕ) → is_stripped c ≡ false → is_visible (fold_char c) ≡ true
fold-visible c h = elim (Option-cases (find_glyph c homoglyphs)) [
  | inl kept ↦ let same = fold-kept c kept in rw same (ground arith)
  | inr (v, glyph) ↦
      rw (fold-glyph c glyph) (ascii-visible v (glyph-ascii c homoglyphs homoglyphs-entries glyph))
]

visible_after : (s : List ℕ) → All (λ c. is_visible c ≡ true) (fold_homoglyphs (strip_chars s))
visible_after [] = tt
visible_after (c ∷ s) = elim (Bool-cases (is_stripped c)) [
  | inl out ↦ rw out (visible_after s)
  | inr kept ↦ rw kept (fold-visible c kept, visible_after s)
]

-- A normalised text: nothing in it is stripped or folded, each white space in it is one blank between
-- other characters.
pub record IsClean (s : List ℕ) : Type 0 where
  pub visible : All (λ c. is_visible c ≡ true) s
  pub single : is_single true s ≡ true
  pub ends : rstrip s ≡ s

pub tidy-IsClean : (s : List ℕ) → IsClean (tidy s)
unfolding tidy collapse_whitespace strip
tidy-IsClean s =
    let P = λ (c : ℕ). is_visible c ≡ true in
    let folded = fold_homoglyphs (strip_chars s) in
    record {
      visible = All-rstrip P (lstrip (single_spaces false folded)) (
          All-lstrip P (single_spaces false folded)
            (All-single_spaces P false folded (ascii-visible 32 (omega arith)) (visible_after s)));
      single =
          rstrip-single true (lstrip (single_spaces false folded))
            (lstrip-single false (single_spaces false folded) (single_spaces-single false folded));
      ends = rstrip_twice (lstrip (single_spaces false folded));
    }

visible_same : (s : List ℕ) → All (λ c. is_visible c ≡ true) s → fold_homoglyphs (strip_chars s) ≡ s
visible_same [] h = refl
visible_same (c ∷ s) h = ground (arith, h.0, visible_same s h.1)

-- A clean text is left alone by the steps after NFKC.
pub tidy_clean : (s : List ℕ) → IsClean s → tidy s ≡ s
unfolding tidy collapse_whitespace strip
tidy_clean s h =
    ap (λ u. rstrip (lstrip (single_spaces false u))) (visible_same s h.visible)
    ∙ (ap (λ u. rstrip (lstrip u)) (single_spaces_same false s (is_single_weaken s h.single))
        ∙ (ap rstrip (lstrip_single s h.single) ∙ h.ends))

module _ (nfkc : List ℕ → List ℕ) where
  -- Whatever NFKC makes of a text, the normalised text has no character that is stripped or folded,
  -- and each white space in it is one blank between other characters. Normalising it again changes
  -- nothing if NFKC leaves it alone.
  pub normalize_text-IsClean :
      (text : List ℕ)
      → let u = normalize_text nfkc text in IsClean u × (nfkc u ≡ u → normalize_text nfkc u ≡ u)
  unfolding normalize_text
  normalize_text-IsClean text =
      let clean = tidy-IsClean (nfkc text) in
      (clean, λ same. ap tidy same ∙ tidy_clean (tidy (nfkc text)) clean)
