-- ===== src/Base64.antt =====
-- Python's base64 as app/session.py uses it: `urlsafe_b64encode` without its padding, and
-- `urlsafe_b64decode` with the padding put back. The decoder passes over characters that are not of the
-- alphabet, as `binascii.a2b_base64` does when it is not strict.
pub mod RoundTrip
use real_guard_v.Prelude.{
  ℕ, ◌+◌, ◌-◌, ◌*◌, ◌/◌, ◌%◌, ◌<◌, ◌≡◌, ◌≢◌, refl, sym, ◌∙◌, ap, arith, Bool, true, false, ◌&&◌,
  ◌||◌, Option, none, some, List, [], ◌∷◌, ◌++◌, ltb, leb, ◌==◌, if◌then◌else◌, All, length,
}

abbrev pub pad : ℕ
pad = b'='

-- The alphabet with `-` and `_`.
unfoldable pub letter : ℕ → ℕ
letter v =
    if ltb v 26
    then v + 65
    else if ltb v 52
    then v + 71
    else if ltb v 62
    then v - 4
    else if v == 62
    then b'-'
    else b'_'

-- The value of a letter; `+` and `/` are taken too.
unfoldable pub letter_value : ℕ → Option ℕ
letter_value c =
    if leb b'A' c && leb c b'Z'
    then some (c - 65)
    else if leb b'a' c && leb c b'z'
    then some (c - 71)
    else if leb b'0' c && leb c b'9'
    then some (c + 4)
    else if c == b'-' || c == b'+'
    then some 62
    else if c == b'_' || c == b'/'
    then some 63
    else none

unfoldable pub b64encode : List ℕ → List ℕ
b64encode [] = []
b64encode (a ∷ []) = letter (a / 4) ∷ letter (a % 4 * 16) ∷ pad ∷ pad ∷ []
b64encode (a ∷ b ∷ []) =
    letter (a / 4) ∷ letter (a % 4 * 16 + b / 16) ∷ letter (b % 16 * 4) ∷ pad ∷ []
b64encode (a ∷ b ∷ c ∷ s) =
    letter (a / 4)
    ∷ letter (a % 4 * 16 + b / 16)
    ∷ letter (b % 16 * 4 + c / 64)
    ∷ letter (c % 64)
    ∷ b64encode s

-- `rstrip("=")`
abbrev pub strip_onto : ℕ → List ℕ → List ℕ
strip_onto c [] = if c == pad then [] else c ∷ []
strip_onto c (d ∷ s) = c ∷ d ∷ s

unfoldable pub rstrip_pad : List ℕ → List ℕ
rstrip_pad [] = []
rstrip_pad (c ∷ s) = strip_onto c (rstrip_pad s)

unfoldable pub b64url_encode : List ℕ → List ℕ
b64url_encode s = rstrip_pad (b64encode s)

-- Where the decoder stands in a group of four letters, with the bits that are left over.
pub data Quad : Type 0 where
  first : Quad
  second third fourth : ℕ → Quad

pub data Turn : Type 0 where
  stop : Turn
  go : Option ℕ → Quad → ℕ → Turn

abbrev pub take_value : Quad → ℕ → Turn
take_value first v = go none (second v) 0
take_value (second l) v = go (some (l * 4 + v / 16)) (third (v % 16)) 0
take_value (third l) v = go (some (l * 16 + v / 4)) (fourth (v % 4)) 0
take_value (fourth l) v = go (some (l * 64 + v)) first 0

-- A padding character after at least two letters.
abbrev pub take_pad : Quad → ℕ → Turn
take_pad (third l) pads = if leb 1 pads then stop else go none (third l) (pads + 1)
take_pad (fourth l) pads = stop
take_pad q pads = go none q pads

unfoldable pub turn : Quad → ℕ → ℕ → Turn
turn q pads c =
    if c == pad
    then take_pad q pads
    else elim (letter_value c) [ none ↦ go none q pads | some v ↦ take_value q v ]

abbrev pub emit : Option ℕ → Option (List ℕ) → Option (List ℕ)
emit none o = o
emit (some b) none = none
emit (some b) (some s) = some (b ∷ s)

-- `none` is a `binascii.Error`.
unfoldable pub a2b : Quad → ℕ → List ℕ → Option (List ℕ)
a2b first pads [] = some []
a2b _ pads [] = none
a2b q pads (c ∷ s) = elim (turn q pads c) [
  | stop ↦ some []
  | go out q' pads' ↦ emit out (a2b q' pads' s)
]

abbrev pub padding : ℕ → List ℕ
padding n =
    if n % 4 == 0
    then []
    else if n % 4 == 3
    then pad ∷ []
    else if n % 4 == 2
    then pad ∷ pad ∷ []
    else pad ∷ pad ∷ pad ∷ []

-- `_b64url_decode`
unfoldable pub b64url_decode : List ℕ → Option (List ℕ)
b64url_decode s = a2b first 0 (s ++ padding (length s))
