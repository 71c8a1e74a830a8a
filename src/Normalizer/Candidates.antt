-- ===== src/Normalizer/Candidates.antt =====
-- The encoded spans that app/normalizer.py looks for: its three regular expressions, each as the length
-- of the match that starts at the front of a text (0 if there is none), and `finditer`.
use real_guard_v.Prelude.{
  ℕ, zero, suc, ◌+◌, ◌*◌, ◌/◌, Bool, false, ◌&&◌, ◌||◌, Option, none, some, List, [], ◌∷◌, leb, ltb,
  ◌==◌, if◌then◌else◌,
}
use real_guard_v.Transform.{take, drop}

abbrev pub is_digit : ℕ → Bool
is_digit c = leb b'0' c && leb c b'9'

abbrev pub is_letter : ℕ → Bool
is_letter c = (leb b'A' c && leb c b'Z') || (leb b'a' c && leb c b'z')

abbrev pub is_base64 : ℕ → Bool
is_base64 c = is_letter c || is_digit c || c == b'+' || c == b'/'

abbrev pub is_hex : ℕ → Bool
is_hex c = is_digit c || (leb b'A' c && leb c b'F') || (leb b'a' c && leb c b'f')

-- `[A-Za-z0-9_.~-]`
abbrev pub is_unreserved : ℕ → Bool
is_unreserved c = is_letter c || is_digit c || c == b'_' || c == b'.' || c == b'~' || c == b'-'

-- How many characters in front are of a class.
unfoldable pub run : (ℕ → Bool) → List ℕ → ℕ
run p [] = 0
run p (c ∷ s) = let rest = run p s in if p c then suc rest else 0

-- `[A-Za-z0-9+/]{16,}={0,2}`
abbrev padded_run : ℕ → ℕ → ℕ
padded_run n pads = if ltb n 16 then 0 else n + (if ltb 2 pads then 2 else pads)

unfoldable pub match_base64 : List ℕ → ℕ
match_base64 s = let n = run is_base64 s in padded_run n (run (λ c. c == b'=') (drop n s))

-- `(?:[0-9a-fA-F]{2}){8,}`
unfoldable pub match_hex : List ℕ → ℕ
match_hex s = let pairs = run is_hex s / 2 in if ltb pairs 8 then 0 else pairs * 2

abbrev two_hex : List ℕ → Bool
two_hex (a ∷ b ∷ s) = is_hex a && is_hex b
two_hex _ = false

-- `%[0-9A-Fa-f]{2}` at the front, after its first character
abbrev pub is_escape : ℕ → List ℕ → Bool
is_escape c s = c == b'%' && two_hex s

-- How many more characters the token at the front has.
abbrev token : ℕ → List ℕ → Option ℕ
token c s = if is_unreserved c then some 0 else if is_escape c s then some 2 else none

-- The number of tokens in front, and their length; the first argument counts characters of the
-- token that is being passed over.
unfoldable pub tokens : ℕ → List ℕ → ℕ × ℕ
tokens k [] = (0, 0)
tokens (suc k) (c ∷ s) = let (count, length) = tokens k s in (count, length + 1)
tokens zero (c ∷ s) = elim (token c s) [
  | none ↦ (0, 0)
  | some k ↦ let (count, length) = tokens k s in (count + 1, length + 1)
]

-- `(?:%[0-9A-Fa-f]{2}|[A-Za-z0-9_.~-]){10,}`
unfoldable pub match_percent : List ℕ → ℕ
match_percent s = let (count, length) = tokens 0 s in if ltb count 10 then 0 else length

-- `pattern.finditer`: matches from the left that do not overlap; the first argument counts the
-- characters of a match that are still to be passed over.
unfoldable pub find_all : (List ℕ → ℕ) → ℕ → List ℕ → List (List ℕ)
find_all match k [] = []
find_all match (suc k) (c ∷ s) = find_all match k s
find_all match zero (c ∷ s) = elim (match (c ∷ s)) [
  | zero ↦ find_all match zero s
  | suc k ↦ take (suc k) (c ∷ s) ∷ find_all match k s
]
