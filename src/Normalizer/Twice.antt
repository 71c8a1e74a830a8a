-- ===== src/Normalizer/Twice.antt =====
-- A second normalisation (app/normalizer.py) may change what the first one gave.
use real_guard_v.Prelude.{
  length, ℕ, ◌≤◌, ◌≡◌, ◌≢◌, sym, ◌∙◌, ap, arith, Bool, true, false, List, [], ◌∷◌, Bool-cases, inl,
  inr,
}
use real_guard_v.Text.{is_space, strip, lstrip, rstrip}
use real_guard_v.Normalizer.{
  is_stripped, fold_char, strip_chars, fold_homoglyphs, single_spaces, collapse_whitespace, tidy,
  normalize_text,
}
use real_guard_v.Normalizer.Spaces.{blank}
use real_guard_v.Normalizer.Clean.{is_visible, IsClean, tidy_clean}

length_single : (b : Bool) (c : ℕ) → length (strip (single_spaces b (c ∷ []))) ≤ 1
unfolding strip lstrip rstrip single_spaces
length_single b c = ground (arith, blank)

length_empty : length (strip (single_spaces false [])) ≤ 1
unfolding strip lstrip rstrip single_spaces
length_empty = omega arith

length-tidy : (z : ℕ) → length (tidy (z ∷ [])) ≤ 1
unfolding tidy collapse_whitespace
length-tidy z = elim (Bool-cases (is_stripped z)) [
  | inl out ↦ rw out length_empty
  | inr kept ↦ rw kept (length_single false (fold_char z))
]

rstrip_pair : (x m : ℕ) → is_space m ≡ false → rstrip (x ∷ m ∷ []) ≡ x ∷ m ∷ []
unfolding rstrip
rstrip_pair x m h = ground arith

module _ (x w m : ℕ) (vx : is_visible x ≡ true) (sx : is_space x ≡ false)
    (sw : is_stripped w ≡ true) (vm : is_visible m ≡ true) (sm : is_space m ≡ false) where
  pair-IsClean : IsClean (x ∷ m ∷ [])
  pair-IsClean = record {
    visible = (vx, (vm, tt));
    single = ground arith;
    ends = rstrip_pair x m sm;
  }

  stripped_between : tidy (x ∷ w ∷ m ∷ []) ≡ tidy (x ∷ m ∷ [])
  unfolding tidy
  stripped_between =
      let same : strip_chars (x ∷ w ∷ m ∷ []) ≡ strip_chars (x ∷ m ∷ []) = ground arith in
      ap (λ u. collapse_whitespace (fold_homoglyphs u)) same

  tidy_between : tidy (x ∷ w ∷ m ∷ []) ≡ x ∷ m ∷ []
  tidy_between = stripped_between ∙ tidy_clean (x ∷ m ∷ []) pair-IsClean

module _ (nfkc : List ℕ → List ℕ) where
  -- Normalising is not idempotent. A character that is stripped keeps a letter and a mark apart under NFKC; once it
  -- is gone, NFKC composes the two, so that a second normalisation gives another text.
  pub normalize_text-twice :
      (x w m z : ℕ)
      → is_visible x ≡ true
      → is_space x ≡ false
      → is_stripped w ≡ true
      → is_visible m ≡ true
      → is_space m ≡ false
      → nfkc (x ∷ w ∷ m ∷ []) ≡ x ∷ w ∷ m ∷ []
      → nfkc (x ∷ m ∷ []) ≡ z ∷ []
      → normalize_text nfkc (normalize_text nfkc (x ∷ w ∷ m ∷ []))
        ≢ normalize_text nfkc (x ∷ w ∷ m ∷ [])
  unfolding normalize_text
  normalize_text-twice x w m z vx sx sw vm sm apart composed same =
      let once = ap tidy apart ∙ tidy_between x w m vx sx sw vm sm in
      let again : tidy (z ∷ []) ≡ x ∷ m ∷ [] =
        sym (ap (λ u. tidy (nfkc u)) once ∙ ap tidy composed) ∙ (same ∙ once) in
      absurd (omega (arith, ap length again, length-tidy z))
