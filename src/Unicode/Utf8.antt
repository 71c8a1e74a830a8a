-- ===== src/Unicode/Utf8.antt =====
-- Python's `s.encode("utf-8")` and `b.decode("utf-8")`: a text is the list of its code points, bytes are
-- numbers below 256. Decoding is strict.
use real_guard_v.Prelude.{
  ℕ, zero, suc, ◌+◌, ◌-◌, ◌*◌, ◌/◌, ◌%◌, ◌≡◌, refl, arith, Bool, true, ◌&&◌, ◌||◌, Option, none,
  some, List, [], ◌∷◌, ◌++◌, ltb, leb, if◌then◌else◌, All,
}

unfoldable pub encode_char : ℕ → List ℕ
encode_char c =
    if ltb c 0x80
    then c ∷ []
    else if ltb c 0x800
    then (0xc0 + c / 64) ∷ (0x80 + c % 64) ∷ []
    else if ltb c 0x10000
    then (0xe0 + c / 4096) ∷ (0x80 + c / 64 % 64) ∷ (0x80 + c % 64) ∷ []
    else (0xf0 + c / 262144) ∷ (0x80 + c / 4096 % 64) ∷ (0x80 + c / 64 % 64) ∷ (0x80 + c % 64) ∷ []

unfoldable pub encode : List ℕ → List ℕ
encode [] = []
encode (c ∷ s) = encode_char c ++ encode s

abbrev pub is_scalar : ℕ → Bool
is_scalar c = ltb c 0xd800 || (ltb 0xdfff c && ltb c 0x110000)

abbrev is_tail : ℕ → Bool
is_tail b = leb 0x80 b && ltb b 0xc0

abbrev checked : ℕ → ℕ → ℕ → Option (ℕ × ℕ)
checked least c more = if leb least c && is_scalar c then some (c, more) else none

abbrev two : ℕ → List ℕ → Option (ℕ × ℕ)
two a (b ∷ s) = if is_tail b then checked 0x80 ((a - 0xc0) * 64 + (b - 0x80)) 1 else none
two a [] = none

abbrev three : ℕ → List ℕ → Option (ℕ × ℕ)
three a (b ∷ c ∷ s) =
    if is_tail b && is_tail c
    then checked 0x800 ((a - 0xe0) * 4096 + (b - 0x80) * 64 + (c - 0x80)) 2
    else none
three a _ = none

abbrev four : ℕ → List ℕ → Option (ℕ × ℕ)
four a (b ∷ c ∷ d ∷ s) =
    if is_tail b && is_tail c && is_tail d
    then checked 0x10000 ((a - 0xf0) * 262144 + (b - 0x80) * 4096 + (c - 0x80) * 64 + (d - 0x80)) 3
    else none
four a _ = none

-- The code point at the front, after its first byte, and how many bytes it has more.
unfoldable pub next_char : ℕ → List ℕ → Option (ℕ × ℕ)
next_char a s =
    if ltb a 0x80
    then some (a, 0)
    else if ltb a 0xc0
    then none
    else if ltb a 0xe0
    then two a s
    else if ltb a 0xf0
    then three a s
    else if ltb a 0xf8
    then four a s
    else none

abbrev put_first : ℕ → Option (List ℕ) → Option (List ℕ)
put_first c none = none
put_first c (some s) = some (c ∷ s)

-- Decoding after some bytes to pass over; `none` is a `UnicodeDecodeError`.
unfoldable pub decode_from : ℕ → List ℕ → Option (List ℕ)
unfolding next_char
decode_from k [] = some []
decode_from (suc k) (a ∷ s) = decode_from k s
decode_from zero (a ∷ s) = elim (next_char a s) [
  | none ↦ none
  | some (c, more) ↦ put_first c (decode_from more s)
]

abbrev pub decode : List ℕ → Option (List ℕ)
decode s = decode_from 0 s

abbrev pub IsText : List ℕ → Type 0
IsText s = All (λ c. is_scalar c ≡ true) s

decode-encode_char :
    (c : ℕ) (rest : List ℕ)
    → is_scalar c ≡ true
    → decode (encode_char c ++ rest) ≡ put_first c (decode rest)
unfolding encode_char decode_from next_char
decode-encode_char c rest h = ground arith

-- What is encoded is decoded to itself.
pub decode-encode : (s : List ℕ) → IsText s → decode (encode s) ≡ some s
unfolding encode decode_from
decode-encode [] h = refl
decode-encode (c ∷ s) h = ground (arith, decode-encode_char c (encode s) h.0, decode-encode s h.1)
