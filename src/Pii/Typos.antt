-- ===== src/Pii/Typos.antt =====
-- app/detectors/pii.py: the findings on numbers of cards that are mistyped.
use real_guard_v.Prelude.{ℕ, ◌<◌, ◌≡◌, ◌≢◌, arith, ◌⊎◌, true, false, some, List, [], ◌∷◌, ◌++◌}
use real_guard_v.Detectors.{Category, high_confidence}
use real_guard_v.Transform.{luhn_valid}
use real_guard_v.Pii.{Patterns, Match, digits_of, card_number, card_body, finding}
use real_guard_v.Pii.Luhn.{luhn_valid-typo, luhn_valid-swap}

-- The digits of a number, and what a slip makes of them: one digit is another one, or two
-- neighbouring digits that differ, and are not 0 and 9, have changed places.
pub data Mistyped : List ℕ → List ℕ → Type 0 where
  wrong_digit :
      (xs ys : List ℕ) (a b : ℕ)
      → a < 10
      → b < 10
      → a ≢ b
      → Mistyped (xs ++ (a ∷ ys)) (xs ++ (b ∷ ys))
  swapped :
      (xs ys : List ℕ) (a b : ℕ)
      → a < 10
      → b < 10
      → a ≢ b
      → ((0 < a) × (0 < b)) ⊎ ((a < 9) × (b < 9))
      → Mistyped (xs ++ (a ∷ b ∷ ys)) (xs ++ (b ∷ a ∷ ys))

luhn_valid-Mistyped :
    {digits typed : List ℕ}
    → Mistyped digits typed
    → luhn_valid digits ≡ true
    → luhn_valid typed ≡ false
luhn_valid-Mistyped (wrong_digit xs ys a b small_a small_b other) h =
    luhn_valid-typo xs ys a b small_a small_b other h
luhn_valid-Mistyped (swapped xs ys a b small_a small_b other apart) h =
    luhn_valid-swap xs ys a b small_a small_b other apart h

module _ (p : Patterns) (category : Category) where
  reported-valid :
      (m : Match) (digits : List ℕ)
      → digits_of p.other_digit (card_number m) ≡ some digits
      → card_body p category m
        ≡ some (finding p category "credit_card_luhn_v1" m "credit_card" 9000 high_confidence ∷ [])
      → luhn_valid digits ≡ true
  unfolding card_body
  reported-valid m digits e h = ground arith

  invalid-silent :
      (m : Match) (digits : List ℕ)
      → digits_of p.other_digit (card_number m) ≡ some digits
      → luhn_valid digits ≡ false
      → card_body p category m ≡ some []
  unfolding card_body
  invalid-silent m digits e h = ground arith

  -- If a candidate is reported as the number of a card, then a candidate with one other digit, or
  -- with two neighbouring digits swapped that are not 0 and 9, is not reported, and raises nothing.
  pub card_body-Mistyped :
      (m n : Match) {digits typed : List ℕ}
      → digits_of p.other_digit (card_number m) ≡ some digits
      → digits_of p.other_digit (card_number n) ≡ some typed
      → Mistyped digits typed
      → card_body p category m
        ≡ some (finding p category "credit_card_luhn_v1" m "credit_card" 9000 high_confidence ∷ [])
      → card_body p category n ≡ some []
  card_body-Mistyped m n {digits} {typed} e f slip h =
      invalid-silent n typed f (luhn_valid-Mistyped slip (reported-valid m digits e h))
