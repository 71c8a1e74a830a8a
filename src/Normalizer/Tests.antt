-- ===== src/Normalizer/Tests.antt =====
-- Tests of app/normalizer.py, with the part of NFKC that composes an e and an acute accent.
use real_guard_v.Prelude.{
  ℕ, ◌≡◌, ◌≢◌, refl, true, List, [], ◌∷◌, ◌==◌, ◌&&◌, if◌then◌else◌, All, map,
}
use real_guard_v.Text.{codes, is_space, strip, lstrip, rstrip}
use real_guard_v.Normalizer.{
  normalize_text, is_stripped, fold_char, homoglyphs, tidy, collapse_whitespace, single_spaces,
}
use real_guard_v.Normalizer.Clean.{IsClean, normalize_text-IsClean}
use real_guard_v.Normalizer.Twice.{normalize_text-twice}
use real_guard_v.Base64.{a2b, letter_value, turn}
use real_guard_v.Unicode.Utf8.{decode_from, next_char}
use real_guard_v.Normalizer.Candidates.{
  find_all, match_base64, match_hex, match_percent, tokens, run,
}
use real_guard_v.Normalizer.Decoders.{
  try_decode_base64, try_decode_hex, try_decode_percent, escapes, from_hex, unquoted,
  looks_like_text,
}
use real_guard_v.Normalizer.Variants.{
  Tables, DecodedVariant, decode_variants, over_depths, over_frontier, over_decoders, over_matches,
  note,
}
use real_guard_v.Normalizer.Bounds.{InBounds, decode_variants-bounds}

abbrev compose : List ℕ → List ℕ
compose [] = []
compose (c ∷ []) = c ∷ []
compose (c ∷ d ∷ s) = if c == 0x65 && d == 0x301 then 0xe9 ∷ s else c ∷ d ∷ s

abbrev tables : Tables
tables = record { nfkc = compose; other_printable = λ c. true }

normalize_text-IsClean_example :
    let u = normalize_text compose (codes " a  b ") in
    IsClean u × (compose u ≡ u → normalize_text compose u ≡ u)
normalize_text-IsClean_example = normalize_text-IsClean compose (codes " a  b ")

-- An e, a zero-width space, and an acute accent.
normalize_text-twice_example :
    normalize_text compose (normalize_text compose (0x65 ∷ 0x200b ∷ 0x301 ∷ []))
    ≢ normalize_text compose (0x65 ∷ 0x200b ∷ 0x301 ∷ [])
unfolding is_stripped fold_char homoglyphs is_space
normalize_text-twice_example =
    normalize_text-twice compose 0x65 0x200b 0x301 0xe9 refl refl refl refl refl refl refl

-- "Ignore all" in hexadecimal digits
abbrev encoded : List ℕ
encoded = codes "49676e6f726520616c6c"

decode_variants-bounds_example : All (InBounds tables 1 3) (decode_variants tables encoded 3)
decode_variants-bounds_example = decode_variants-bounds tables encoded 3

encoded_found :
    map (λ (v : DecodedVariant). v.text) (decode_variants tables encoded 1)
    ≡ codes "Ignore all" ∷ []
unfolding decode_variants over_depths over_frontier over_decoders over_matches find_all
    match_percent tokens note try_decode_percent escapes match_hex run try_decode_hex decode_from
    from_hex looks_like_text match_base64 a2b letter_value turn try_decode_base64 unquoted
    collapse_whitespace fold_char homoglyphs is_stripped normalize_text single_spaces tidy is_space
    lstrip rstrip strip next_char
encoded_found = refl
