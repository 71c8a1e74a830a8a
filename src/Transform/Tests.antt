-- ===== src/Transform/Tests.antt =====
-- Tests of app/transform.py: a text with an address at 3 to 6 and a key that overlaps it at 5 to 9.
use real_guard_v.Prelude.{◌≡◌, [], ◌∷◌, arith, All, Any}
use real_guard_v.Text.{codes}
use real_guard_v.Transform.{Patterns, apply_redact, find_redaction_spans, raw_spans}
use real_guard_v.Transform.Merge.{Apart, Covers}
use real_guard_v.Transform.Redact.{redacted, redact-Covers}

abbrev pub patterns : Patterns
patterns = record {
  email = λ text. (3, 6) ∷ [];
  phone = λ text. [];
  ssn = λ text. [];
  card = λ text. [];
  iban = λ text. [];
  aws_access_key = λ text. (5, 9) ∷ [];
  provider_key = λ text. [];
  pem_block = λ text. [];
  jwt = λ text. [];
  digits_of = λ text. [];
}

redact-Covers_example :
    let text = codes "to a@b.AKIA" in
    let spans = find_redaction_spans patterns text in
    ((apply_redact patterns text).0 ≡ redacted 0 spans text)
    × Apart 0 spans
    × All (λ s. Any (Covers s) spans) (raw_spans patterns text)
unfolding raw_spans
redact-Covers_example =
    redact-Covers patterns (codes "to a@b.AKIA") (omega arith, (omega arith, tt))
      (omega arith, (omega arith, tt))
