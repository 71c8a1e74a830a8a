-- ===== src/Pii/Luhn.antt =====
-- The check of card numbers, `_luhn_valid` of app/detectors/pii.py: which mistypings it notices.
use real_guard_v.Prelude.{
  ℕ, suc, ◌+◌, ◌%◌, ◌<◌, ◌≡◌, ◌≢◌, arith, ◌⊎◌, true, false, List, [], ◌∷◌, ◌++◌, length,
  length-append, ◌==◌, if◌then◌else◌, ap,
}
use real_guard_v.Transform.{luhn_valid, luhn_total, luhn_digit}

-- What a digit adds at a place.
abbrev weight : ℕ → ℕ → ℕ → ℕ
weight parity i d = if i % 2 == parity then luhn_digit d else d

no_shift : (i : ℕ) → i ≡ i + 0
no_shift i = omega arith

shift : (i n : ℕ) → i + 1 + n ≡ i + suc n
shift i n = omega arith

luhn_total-append :
    (parity i : ℕ) (xs ys : List ℕ)
    → luhn_total parity i (xs ++ ys) ≡ luhn_total parity i xs + luhn_total parity (i + length xs) ys
luhn_total-append parity i [] ys = ground (arith, ap (λ k. luhn_total parity k ys) (no_shift i))
luhn_total-append parity i (x ∷ xs) ys = ground (
  arith,
  luhn_total-append parity (i + 1) xs ys,
  ap (λ k. luhn_total parity k ys) (shift i (length xs)),
)

-- Two digits at a place add different amounts, modulo 10.
weight-differs :
    (parity i a b n : ℕ)
    → a < 10
    → b < 10
    → a ≢ b
    → (n + weight parity i a) % 10 ≡ 0
    → (n + weight parity i b) % 10 ≢ 0
weight-differs parity i a b n small_a small_b other h = ground arith

-- A valid number is not valid with another digit in one place.
pub luhn_valid-typo :
    (xs ys : List ℕ) (a b : ℕ)
    → a < 10
    → b < 10
    → a ≢ b
    → luhn_valid (xs ++ (a ∷ ys)) ≡ true
    → luhn_valid (xs ++ (b ∷ ys)) ≡ false
unfolding luhn_valid
luhn_valid-typo xs ys a b small_a small_b other h = ground (
  arith,
  length-append xs (a ∷ ys),
  length-append xs (b ∷ ys),
  luhn_total-append (length (xs ++ (a ∷ ys)) % 2) 0 xs (a ∷ ys),
  luhn_total-append (length (xs ++ (b ∷ ys)) % 2) 0 xs (b ∷ ys),
)

-- A valid number is not valid with two neighbouring digits swapped, unless they are 0 and 9.
pub luhn_valid-swap :
    (xs ys : List ℕ) (a b : ℕ)
    → a < 10
    → b < 10
    → a ≢ b
    → ((0 < a) × (0 < b)) ⊎ ((a < 9) × (b < 9))
    → luhn_valid (xs ++ (a ∷ b ∷ ys)) ≡ true
    → luhn_valid (xs ++ (b ∷ a ∷ ys)) ≡ false
unfolding luhn_valid
luhn_valid-swap xs ys a b small_a small_b other apart h = ground (
  arith,
  length-append xs (a ∷ b ∷ ys),
  length-append xs (b ∷ a ∷ ys),
  luhn_total-append (length (xs ++ (a ∷ b ∷ ys)) % 2) 0 xs (a ∷ b ∷ ys),
  luhn_total-append (length (xs ++ (b ∷ a ∷ ys)) % 2) 0 xs (b ∷ a ∷ ys),
)
