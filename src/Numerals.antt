-- ===== src/Numerals.antt =====
-- Python's `str(n)` of a natural number, and `int(s)` of a text.
pub mod RoundTrip
use real_guard_v.Prelude.{
  ℕ, zero, suc, ◌+◌, ◌-◌, ◌*◌, ◌/◌, ◌%◌, ◌<◌, ◌≤◌, ◌≡◌, refl, ◌∙◌, ap, arith, Bool, true, false,
  not, ◌&&◌, ◌||◌, Option, none, some, List, [], ◌∷◌, ◌++◌, ltb, leb, ◌==◌, if◌then◌else◌, All,
  length,
}
use real_guard_v.Json.{ℤ, pos, negsuc}
use real_guard_v.Text.{is_space, strip, lstrip, rstrip}

-- The digits of `n` in front of `out`; the number of rounds is bounded by the first argument.
unfoldable pub digits_onto : ℕ → ℕ → List ℕ → List ℕ
digits_onto zero n out = out
digits_onto (suc f) n out =
    let rest = digits_onto f (n / 10) ((48 + n % 10) ∷ out) in
    if ltb n 10 then (48 + n) ∷ out else rest

unfoldable pub show : ℕ → List ℕ
show n = digits_onto (suc n) n []

-- The decimal digits outside ASCII are a parameter.
module _ (other_digit : ℕ → Option ℕ) where
  abbrev pub digit_value : ℕ → Option ℕ
  digit_value c =
      if ltb c 128 then if leb 48 c && leb c 57 then some (c - 48) else none else other_digit c

  -- The next state: whether a digit has just been read, the value and the number of digits so far.
  abbrev read : Bool → ℕ → ℕ → ℕ → Option (Bool × ℕ × ℕ)
  read after_digit value count c =
      if c == b'_'
      then if after_digit then some (false, value, count) else none
      else elim (digit_value c) [ none ↦ none | some d ↦ some (true, value * 10 + d, count + 1) ]

  -- At most 4300 digits are taken.
  unfoldable pub scan : Bool → ℕ → ℕ → List ℕ → Option ℕ
  scan after_digit value count [] = if after_digit && leb count 4300 then some value else none
  scan after_digit value count (c ∷ s) = elim (read after_digit value count c) [
    | none ↦ none
    | some (after_digit', value', count') ↦ scan after_digit' value' count' s
  ]

  abbrev negated : Option ℕ → Option ℤ
  negated none = none
  negated (some zero) = some (pos 0)
  negated (some (suc n)) = some (negsuc n)

  abbrev positive : Option ℕ → Option ℤ
  positive none = none
  positive (some n) = some (pos n)

  abbrev signed : List ℕ → Option ℤ
  signed [] = none
  signed (c ∷ s) =
      if c == b'-'
      then negated (scan false 0 0 s)
      else if c == b'+'
      then positive (scan false 0 0 s)
      else positive (scan false 0 0 (c ∷ s))

  -- `int(s)`; `none` is a `ValueError`.
  unfoldable pub parse_int : List ℕ → Option ℤ
  parse_int s = signed (strip s)

abbrev pub IsDigit : ℕ → Type 0
IsDigit c = (48 ≤ c) × (c < 58)

digits_onto-digits : (f n : ℕ) (out : List ℕ) → All IsDigit out → All IsDigit (digits_onto f n out)
unfolding digits_onto
digits_onto-digits zero n out h = h
digits_onto-digits (suc f) n out h =
    ground (arith, digits_onto-digits f (n / 10) ((48 + n % 10) ∷ out))

pub show-digits : (n : ℕ) → All IsDigit (show n)
unfolding show
show-digits n = digits_onto-digits (suc n) n [] tt
