-- ===== src/Numerals/RoundTrip.antt =====
-- Python's `int(str(n))` is `n`.
use real_guard_v.Prelude.{
  ℕ, zero, suc, ◌+◌, ◌*◌, ◌/◌, ◌%◌, ◌<◌, ◌≤◌, ◌≡◌, refl, ◌∙◌, ap, arith, Bool, true, false, Option,
  some, List, [], ◌∷◌, ltb, if◌then◌else◌, All,
}
use real_guard_v.Json.{pos}
use real_guard_v.Text.{is_space, strip, lstrip, rstrip}
use real_guard_v.Numerals.{
  digits_onto, show, show-digits, scan, signed, positive, parse_int, IsDigit,
}

rounds : ℕ → ℕ → ℕ
rounds zero n = 0
rounds (suc f) n = let more = rounds f (n / 10) in if ltb n 10 then 1 else suc more

abbrev pow10 : ℕ → ℕ
pow10 zero = 1
pow10 (suc k) = 10 * pow10 k

rounds-le : (k f n : ℕ) → n < pow10 (suc k) → rounds f n ≤ suc k
unfolding rounds
rounds-le k zero n h = omega arith
rounds-le zero (suc f) n h = ground arith
rounds-le (suc k) (suc f) n h = ground (arith, rounds-le k f (n / 10))

module _ (other : ℕ → Option ℕ) where
  scan-digits_onto :
      (f n count : ℕ) (b : Bool) (out : List ℕ)
      → n < f
      → scan other b 0 count (digits_onto f n out) ≡ scan other true n (count + rounds f n) out
  unfolding digits_onto scan rounds
  scan-digits_onto zero n count b out h = absurd (omega arith)
  scan-digits_onto (suc f) n count b out h =
      ground (arith, scan-digits_onto f (n / 10) count b ((48 + n % 10) ∷ out))

digit-ink : (c : ℕ) → IsDigit c → is_space c ≡ false
unfolding is_space
digit-ink c h = ground arith

lstrip_digits : (s : List ℕ) → All IsDigit s → lstrip s ≡ s
unfolding lstrip
lstrip_digits [] h = refl
lstrip_digits (c ∷ s) h = ground (arith, digit-ink c h.0)

rstrip_digits : (s : List ℕ) → All IsDigit s → rstrip s ≡ s
unfolding rstrip
rstrip_digits [] h = refl
rstrip_digits (c ∷ []) h = ground (arith, digit-ink c h.0)
rstrip_digits (c ∷ d ∷ s) h = ground (arith, rstrip_digits (d ∷ s) h.1)

strip_digits : (s : List ℕ) → All IsDigit s → strip s ≡ s
unfolding strip
strip_digits s h = ap rstrip (lstrip_digits s h) ∙ rstrip_digits s h

module _ (other : ℕ → Option ℕ) where
  signed_digits :
      (s : List ℕ) → All IsDigit s → signed other s ≡ positive other (scan other false 0 0 s)
  unfolding scan
  signed_digits [] h = refl
  signed_digits (c ∷ s) h = ground arith

  scan-show : (n : ℕ) → n < pow10 12 → scan other false 0 0 (show n) ≡ some n
  unfolding show scan
  scan-show n h =
      ground
        (arith, scan-digits_onto other (suc n) n 0 false [] (omega arith), rounds-le 11 (suc n) n h)

  pub parse_int-show : (n : ℕ) → n < 1000000000000 → parse_int other (show n) ≡ some (pos n)
  unfolding parse_int
  parse_int-show n h =
      ap (signed other) (strip_digits (show n) (show-digits n))
      ∙ (signed_digits (show n) (show-digits n) ∙ ap (positive other) (scan-show n h))
