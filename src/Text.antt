-- ===== src/Text.antt =====
-- Text walked by its code points, with the parts of Python's `str` that the program uses.
use Prim.Native.Char.{code}
use real_guard_v.Prelude.{
  ◌≡◌, refl, arith, ℕ, ◌+◌, ◌-◌, String, Bool, true, false, not, ◌||◌, ◌&&◌, List, [], ◌∷◌, ◌++◌,
  leb, ltb, ◌==◌, any, if◌then◌else◌,
}

abbrev pub codes : String → List ℕ
codes String.[] = []
codes (String.◌∷◌ c s) = code c ∷ codes s

-- `str.isspace` of one character, by its code point.
unfoldable pub is_space : ℕ → Bool
is_space c =
    (leb 9 c && leb c 13)
    || (leb 28 c && leb c 32)
    || c == 0x85
    || c == 0xa0
    || c == 0x1680
    || (leb 0x2000 c && leb c 0x200a)
    || c == 0x2028
    || c == 0x2029
    || c == 0x202f
    || c == 0x205f
    || c == 0x3000

-- `bool(s.strip())`
unfoldable pub has_ink : String → Bool
unfolding is_space
has_ink s = any (λ c. not (is_space c)) (codes s)

-- The case tables of Unicode outside ASCII, one code point at a time.
pub record Casing : Type 0 where
  pub upper_other : ℕ → List ℕ
  pub lower_other : ℕ → List ℕ

abbrev upper_code : Casing → ℕ → List ℕ
upper_code u c =
    if leb 97 c && leb c 122 then (c - 32) ∷ [] else if ltb c 128 then c ∷ [] else u.upper_other c

abbrev lower_code : Casing → ℕ → List ℕ
lower_code u c =
    if leb 65 c && leb c 90 then (c + 32) ∷ [] else if ltb c 128 then c ∷ [] else u.lower_other c

-- `s.upper()` and `s.lower()`
unfoldable pub upper : Casing → List ℕ → List ℕ
upper u [] = []
upper u (c ∷ s) = upper_code u c ++ upper u s

unfoldable pub lower : Casing → List ℕ → List ℕ
lower u [] = []
lower u (c ∷ s) = lower_code u c ++ lower u s

-- `s.startswith(p)`
abbrev pub starts_with : List ℕ → List ℕ → Bool
starts_with [] s = true
starts_with (c ∷ p) [] = false
starts_with (c ∷ p) (d ∷ s) = c == d && starts_with p s

-- `p in s`
abbrev pub contains : List ℕ → List ℕ → Bool
contains p [] = starts_with p []
contains p (d ∷ s) = starts_with p (d ∷ s) || contains p s

abbrev pub same_codes : List ℕ → List ℕ → Bool
same_codes [] [] = true
same_codes (c ∷ s) (d ∷ t) = c == d && same_codes s t
same_codes _ _ = false

pub same_codes-eq : (s t : List ℕ) → same_codes s t ≡ true → s ≡ t
same_codes-eq [] [] h = refl
same_codes-eq (c ∷ s) (d ∷ t) h = ground (arith, same_codes-eq s t)
same_codes-eq [] (d ∷ t) h = cc
same_codes-eq (c ∷ s) [] h = cc

unfoldable pub lstrip : List ℕ → List ℕ
unfolding is_space
lstrip [] = []
lstrip (c ∷ s) = let rest = lstrip s in if is_space c then rest else c ∷ s

unfoldable pub rstrip : List ℕ → List ℕ
unfolding is_space
rstrip [] = []
rstrip (c ∷ s) = elim (rstrip s) [
  | [] ↦ if is_space c then [] else c ∷ []
  | d ∷ rest ↦ c ∷ d ∷ rest
]

-- `s.strip()`
unfoldable pub strip : List ℕ → List ℕ
unfolding lstrip rstrip
strip s = rstrip (lstrip s)

-- `s.split(None, 1)[0]` of text that has no white space in front
unfoldable pub first_word : List ℕ → List ℕ
unfolding is_space
first_word [] = []
first_word (c ∷ s) = let rest = first_word s in if is_space c then [] else c ∷ rest
