-- ===== src/Normalizer/Decoders.antt =====
-- The three decoders of app/normalizer.py. Which characters outside ASCII are printable is a parameter.
use real_guard_v.Prelude.{
  ℕ, zero, suc, ◌+◌, ◌-◌, ◌*◌, Bool, true, false, ◌&&◌, ◌||◌, Option, none, some, List, [], ◌∷◌,
  ◌++◌, leb, ltb, ◌==◌, if◌then◌else◌, length, filter, all,
}
use real_guard_v.Text.{same_codes}
use real_guard_v.Transform.{drop}
use real_guard_v.Unicode.Utf8.{decode}
use real_guard_v.Base64.{a2b, first, padding}
use real_guard_v.Normalizer.Candidates.{is_base64, is_digit, is_escape, run}

module _ (other_printable : ℕ → Bool) where
  abbrev pub is_printable : ℕ → Bool
  is_printable c = if ltb c 127 then leb 32 c else if c == 127 then false else other_printable c

  -- At least 85 of 100 characters are printable or breaks.
  unfoldable pub looks_like_text : List ℕ → Bool
  looks_like_text [] = false
  looks_like_text (c ∷ s) =
      let text = c ∷ s in
      leb (85 * length text)
        (100 * length (filter (λ d. is_printable d || d == 10 || d == 13 || d == 9) text))

  abbrev readable : List ℕ → Option (List ℕ)
  readable text = if looks_like_text text then some text else none

  abbrev pub of_text : Option (List ℕ) → Option (List ℕ)
  of_text none = none
  of_text (some text) = readable text

  -- `raw.decode("utf-8")`, and the test on its result
  abbrev pub of_bytes : Option (List ℕ) → Option (List ℕ)
  of_bytes none = none
  of_bytes (some raw) = of_text (decode raw)

  -- `b64decode(..., validate=True)` takes letters and at most two padding characters.
  abbrev is_valid : List ℕ → Bool
  is_valid s =
      let rest = drop (run is_base64 s) s in all (λ c. c == b'=') rest && leb (length rest) 2

  unfoldable pub try_decode_base64 : List ℕ → Option (List ℕ)
  try_decode_base64 candidate =
      let padded = candidate ++ padding (length candidate) in
      if is_valid padded then of_bytes (a2b first 0 padded) else none

-- The value of a hexadecimal digit.
abbrev pub hex_value : ℕ → ℕ
hex_value c = if is_digit c then c - 48 else if leb b'a' c then c - 87 else c - 55

-- `bytes.fromhex` of pairs of digits
unfoldable pub from_hex : List ℕ → List ℕ
from_hex [] = []
from_hex (c ∷ []) = []
from_hex (c ∷ d ∷ s) = (hex_value c * 16 + hex_value d) ∷ from_hex s

-- `unquote_to_bytes`; the first argument counts the characters of an escape that is being passed over.
abbrev escaped : List ℕ → ℕ
escaped (c ∷ d ∷ s) = hex_value c * 16 + hex_value d
escaped _ = 0

unfoldable pub unquoted : ℕ → List ℕ → List ℕ
unquoted k [] = []
unquoted (suc k) (c ∷ s) = unquoted k s
unquoted zero (c ∷ s) = elim (is_escape c s) [
  | true ↦ escaped s ∷ unquoted 2 s
  | false ↦ c ∷ unquoted 0 s
]

-- `len(_PERCENT_ESCAPE_RE.findall(candidate))`; an escape holds no other one.
unfoldable pub escapes : List ℕ → ℕ
escapes [] = 0
escapes (c ∷ s) = let rest = escapes s in if is_escape c s then suc rest else rest

module _ (other_printable : ℕ → Bool) where
  unfoldable pub try_decode_hex : List ℕ → Option (List ℕ)
  try_decode_hex candidate = of_bytes other_printable (some (from_hex candidate))

  abbrev changed : List ℕ → Option (List ℕ) → Option (List ℕ)
  changed candidate none = none
  changed candidate (some text) =
      if same_codes text candidate then none else of_text other_printable (some text)

  unfoldable pub try_decode_percent : List ℕ → Option (List ℕ)
  try_decode_percent candidate =
      if ltb (escapes candidate) 3 then none else changed candidate (decode (unquoted 0 candidate))
