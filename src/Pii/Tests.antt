-- ===== src/Pii/Tests.antt =====
-- A test of app/detectors/pii.py: a card's number, and the same with its first digit wrong.
use real_guard_v.Prelude.{◌≡◌, refl, arith, none, some, [], ◌∷◌}
use real_guard_v.Text.{codes}
use real_guard_v.Detectors.{pii_detected}
use real_guard_v.Transform.{luhn_valid}
use real_guard_v.Pii.{Patterns, Match, card_body}
use real_guard_v.Pii.Typos.{wrong_digit, card_body-Mistyped}

abbrev patterns : Patterns
patterns = record {
  email = λ text. [];
  phone = λ text. [];
  ssn = λ text. [];
  card_candidate = λ text. [];
  iban = λ text. [];
  ip = λ text. [];
  other_digit = λ c. none;
  salted_excerpt_hash = λ text. "hash";
}

abbrev card : Match
card = record { start = 0; end = 19; group = codes "4111-1111 1111-1111" }

abbrev mistyped : Match
mistyped = record { start = 0; end = 16; group = codes "7111111111111111" }

card_body-Mistyped_example : card_body patterns pii_detected mistyped ≡ some []
unfolding card_body luhn_valid
card_body-Mistyped_example =
    card_body-Mistyped patterns pii_detected card mistyped refl refl
      (wrong_digit [] (1 ∷ 1 ∷ 1 ∷ 1 ∷ 1 ∷ 1 ∷ 1 ∷ 1 ∷ 1 ∷ 1 ∷ 1 ∷ 1 ∷ 1 ∷ 1 ∷ 1 ∷ []) 4 7
        (omega arith) (omega arith) (omega arith))
      refl
