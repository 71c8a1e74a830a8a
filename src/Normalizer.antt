-- ===== src/Normalizer.antt =====
-- app/normalizer.py, `normalize_text`: the text that detectors see. A text is the list of its code
-- points. NFKC (`unicodedata.normalize`) is a table of Unicode, a parameter here.
pub mod Spaces
pub mod Clean
pub mod Twice
pub mod Candidates
pub mod Decoders
pub mod Variants
pub mod Bounds
pub mod Tests
use real_guard_v.Prelude.{
  ℕ, Bool, true, false, not, ◌&&◌, ◌||◌, Option, none, some, List, [], ◌∷◌, map, filter, leb, ◌==◌,
  if◌then◌else◌,
}
use real_guard_v.Text.{is_space, strip}

-- `_STRIP_CHARS`: zero-width characters, controls of direction, and selectors of variants.
abbrev pub is_zero_width : ℕ → Bool
is_zero_width c =
    (leb 0x200b c && leb c 0x200f) || c == 0xfeff || (leb 0x2060 c && leb c 0x2064) || c == 0xad

abbrev pub is_bidi_control : ℕ → Bool
is_bidi_control c = (leb 0x202a c && leb c 0x202e) || (leb 0x2066 c && leb c 0x2069)

unfoldable pub is_stripped : ℕ → Bool
is_stripped c = is_zero_width c || is_bidi_control c || (leb 0xfe00 c && leb c 0xfe0f)

-- `_HOMOGLYPHS`
pub homoglyphs : List (ℕ × ℕ)
homoglyphs =
    (0x430, b'a')
    ∷ (0x435, b'e')
    ∷ (0x43e, b'o')
    ∷ (0x440, b'p')
    ∷ (0x441, b'c')
    ∷ (0x443, b'y')
    ∷ (0x445, b'x')
    ∷ (0x442, b't')
    ∷ (0x455, b's')
    ∷ (0x410, b'A')
    ∷ (0x412, b'B')
    ∷ (0x415, b'E')
    ∷ (0x41a, b'K')
    ∷ (0x41c, b'M')
    ∷ (0x41d, b'H')
    ∷ (0x41e, b'O')
    ∷ (0x420, b'P')
    ∷ (0x421, b'C')
    ∷ (0x422, b'T')
    ∷ (0x423, b'Y')
    ∷ (0x425, b'X')
    ∷ (0x456, b'i')
    ∷ (0x406, b'I')
    ∷ (0x3b1, b'a')
    ∷ (0x3bf, b'o')
    ∷ (0x3c1, b'p')
    ∷ (0x3c5, b'y')
    ∷ (0x3c4, b't')
    ∷ (0x391, b'A')
    ∷ (0x392, b'B')
    ∷ (0x395, b'E')
    ∷ (0x396, b'Z')
    ∷ (0x397, b'H')
    ∷ (0x399, b'I')
    ∷ (0x39a, b'K')
    ∷ (0x39c, b'M')
    ∷ (0x39d, b'N')
    ∷ (0x39f, b'O')
    ∷ (0x3a1, b'P')
    ∷ (0x3a4, b'T')
    ∷ (0x3a5, b'Y')
    ∷ (0x3a7, b'X')
    ∷ []

abbrev pub find_glyph : ℕ → List (ℕ × ℕ) → Option ℕ
find_glyph c [] = none
find_glyph c ((k, v) ∷ table) = if k == c then some v else find_glyph c table

-- `_HOMOGLYPHS.get(c, c)`
unfoldable pub fold_char : ℕ → ℕ
fold_char c = elim (find_glyph c homoglyphs) [ none ↦ c | some v ↦ v ]

abbrev pub strip_chars : List ℕ → List ℕ
strip_chars text = filter (λ c. not (is_stripped c)) text

abbrev pub fold_homoglyphs : List ℕ → List ℕ
fold_homoglyphs text = map fold_char text

-- `_WHITESPACE_RE.sub(" ", text)`; the first argument says whether a run of white space goes on.
unfoldable pub single_spaces : Bool → List ℕ → List ℕ
single_spaces running [] = []
single_spaces running (c ∷ s) =
    let rest = single_spaces (is_space c) s in
    if is_space c then if running then rest else b' ' ∷ rest else c ∷ rest

unfoldable pub collapse_whitespace : List ℕ → List ℕ
collapse_whitespace text = strip (single_spaces false text)

-- The steps after NFKC.
unfoldable pub tidy : List ℕ → List ℕ
tidy text = collapse_whitespace (fold_homoglyphs (strip_chars text))

unfoldable pub normalize_text : (List ℕ → List ℕ) → List ℕ → List ℕ
normalize_text nfkc text = tidy (nfkc text)
