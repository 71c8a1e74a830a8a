-- ===== src/Transform.antt =====
-- app/transform.py: the spans to redact, their merging, and the redaction of a text and of a list of
-- messages. The regular expressions are a parameter: what `finditer` finds of each in a text.
pub mod Sorting
pub mod Merge
pub mod Redact
pub mod Messages
pub mod Tests
use real_guard_v.Prelude.{
  ℕ, zero, suc, ◌+◌, ◌-◌, ◌*◌, ◌%◌, ◌≡◌, String, Bool, true, false, not, ◌&&◌, ◌||◌, Option, none,
  some, List, [], ◌∷◌, ◌++◌, map, filter, length, str_eq, ltb, leb, ◌==◌, if◌then◌else◌, sorted_set,
}
use real_guard_v.Text.{codes}
use real_guard_v.Json.{Json, str, obj, get, set_field}
use real_guard_v.Schemas.{Transformation, unchanged, redact}

pub record RedactionSpan : Type 0 where
  pub start : ℕ
  pub end : ℕ
  pub label : String

pub record TransformationRecord : Type 0 where
  pub transformation : Transformation
  pub span_count : ℕ
  pub labels : List String
  pub spans : List (ℕ × ℕ)

-- `_SENSITIVITY_RANK.get(label, 0)`
abbrev pub sensitivity : String → ℕ
sensitivity label =
    if str_eq label "PEM_PRIVATE_KEY"
    then 6
    else if str_eq label "AWS_ACCESS_KEY"
    then 5
    else if str_eq label "PROVIDER_API_KEY"
    then 5
    else if str_eq label "JWT"
    then 5
    else if str_eq label "SSN"
    then 4
    else if str_eq label "CREDIT_CARD"
    then 4
    else if str_eq label "IBAN"
    then 3
    else if str_eq label "EMAIL"
    then 2
    else if str_eq label "PHONE"
    then 2
    else 0

abbrev pub take {ℓ} : {A : Type ℓ} → ℕ → List A → List A
take zero xs = []
take (suc n) [] = []
take (suc n) (x ∷ xs) = x ∷ take n xs

abbrev pub drop {ℓ} : {A : Type ℓ} → ℕ → List A → List A
drop zero xs = xs
drop (suc n) [] = []
drop (suc n) (x ∷ xs) = drop n xs

-- `_luhn_valid`, app/detectors/pii.py, on the values of the digits
abbrev pub luhn_digit : ℕ → ℕ
luhn_digit d = if ltb 9 (2 * d) then 2 * d - 9 else 2 * d

abbrev pub luhn_total : ℕ → ℕ → List ℕ → ℕ
luhn_total parity i [] = 0
luhn_total parity i (d ∷ digits) =
    let rest = luhn_total parity (i + 1) digits in
    if i % 2 == parity then luhn_digit d + rest else d + rest

unfoldable pub luhn_valid : List ℕ → Bool
luhn_valid digits = luhn_total (length digits % 2) 0 digits % 10 == 0

-- `finditer` of the patterns, as pairs of offsets, by the name of the pattern; and the values of the
-- digits of a text (`c.isdigit()`, `int(c)`).
pub record Patterns : Type 0 where
  pub email : List ℕ → List (ℕ × ℕ)
  pub phone : List ℕ → List (ℕ × ℕ)
  pub ssn : List ℕ → List (ℕ × ℕ)
  pub card : List ℕ → List (ℕ × ℕ)
  pub iban : List ℕ → List (ℕ × ℕ)
  pub aws_access_key : List ℕ → List (ℕ × ℕ)
  pub provider_key : List ℕ → List (ℕ × ℕ)
  pub pem_block : List ℕ → List (ℕ × ℕ)
  pub jwt : List ℕ → List (ℕ × ℕ)
  pub digits_of : List ℕ → List ℕ

abbrev label_all : String → List (ℕ × ℕ) → List RedactionSpan
label_all label ms = map (λ m. record { start = m.0; end = m.1; label = label }) ms

abbrev matched : List ℕ → ℕ × ℕ → List ℕ
matched text m = take (m.1 - m.0) (drop m.0 text)

-- A card candidate without its blanks and dashes is all digits.
unfoldable pub raw_spans : Patterns → List ℕ → List RedactionSpan
unfolding luhn_valid
raw_spans p text =
    let digits : ℕ × ℕ → List ℕ = λ m. p.digits_of (matched text m) in
    label_all "EMAIL" (p.email text)
    ++ (label_all "PHONE" (filter (λ m. leb 8 (length (digits m))) (p.phone text))
        ++ (label_all "SSN" (p.ssn text)
            ++ (label_all "CREDIT_CARD" (
                  filter
                    (λ m.
                      leb 13 (length (digits m))
                      && leb (length (digits m)) 19
                      && luhn_valid (digits m))
                    (p.card text))
                ++ (label_all "IBAN" (p.iban text)
                    ++ (label_all "AWS_ACCESS_KEY" (p.aws_access_key text)
                        ++ (label_all "PROVIDER_API_KEY" (p.provider_key text)
                            ++ (label_all "PEM_PRIVATE_KEY" (p.pem_block text)
                                ++ label_all "JWT" (p.jwt text))))))))

-- `sorted(spans, key=lambda s: s.start)`
abbrev pub insert_span : RedactionSpan → List RedactionSpan → List RedactionSpan
insert_span s [] = s ∷ []
insert_span s (t ∷ spans) =
    let rest = insert_span s spans in if leb s.start t.start then s ∷ t ∷ spans else t ∷ rest

abbrev pub sort_spans : List RedactionSpan → List RedactionSpan
sort_spans [] = []
sort_spans (s ∷ spans) = insert_span s (sort_spans spans)

abbrev pub min : ℕ → ℕ → ℕ
min a b = if ltb b a then b else a

abbrev pub larger : ℕ → ℕ → ℕ
larger a b = if ltb a b then b else a

-- The span that replaces `last` when `span` overlaps it.
abbrev pub join : RedactionSpan → RedactionSpan → RedactionSpan
join last span = record {
  start = min last.start span.start;
  end = larger last.end span.end;
  label = if ltb (sensitivity last.label) (sensitivity span.label) then span.label else last.label;
}

-- The loop over the spans after the first; `last` is `merged[-1]`.
unfoldable pub merge_onto : RedactionSpan → List RedactionSpan → List RedactionSpan
merge_onto last [] = last ∷ []
merge_onto last (span ∷ spans) = elim (ltb span.start last.end) [
  | true ↦ merge_onto (join last span) spans
  | false ↦ last ∷ merge_onto span spans
]

abbrev merge_sorted : List RedactionSpan → List RedactionSpan
unfolding merge_onto
merge_sorted [] = []
merge_sorted (s ∷ spans) = merge_onto s spans

unfoldable pub merge_overlapping : List RedactionSpan → List RedactionSpan
unfolding merge_sorted
merge_overlapping spans = merge_sorted (sort_spans spans)

unfoldable pub find_redaction_spans : Patterns → List ℕ → List RedactionSpan
unfolding raw_spans merge_overlapping
find_redaction_spans p text = merge_overlapping (raw_spans p text)

abbrev pub placeholder : RedactionSpan → List ℕ
placeholder s = codes "[REDACTED:" ++ (codes s.label ++ codes "]")

-- `result[: span.start] + placeholder + result[span.end :]`
abbrev pub splice : RedactionSpan → List ℕ → List ℕ
splice s text = take s.start text ++ (placeholder s ++ drop s.end text)

-- The loop over the spans from the last to the first; the spans stand in order.
unfoldable pub splice_all : List RedactionSpan → List ℕ → List ℕ
splice_all [] text = text
splice_all (s ∷ spans) text = splice s (splice_all spans text)

abbrev pub no_record : TransformationRecord
no_record = record { transformation = unchanged; span_count = 0; labels = []; spans = [] }

unfoldable pub apply_redact : Patterns → List ℕ → List ℕ × TransformationRecord
unfolding find_redaction_spans splice_all
apply_redact p text = elim (find_redaction_spans p text) [
  | [] ↦ (text, no_record)
  | s ∷ more ↦
      let spans = s ∷ more in
      (
        splice_all spans text,
        record {
          transformation = redact;
          span_count = length spans;
          labels = sorted_set (map (λ (t : RedactionSpan). t.label) spans);
          spans = map (λ (t : RedactionSpan). (t.start, t.end - t.start)) spans;
        },
      )
]
