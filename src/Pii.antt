-- ===== src/Pii.antt =====
-- app/detectors/pii.py. The regular expressions are a parameter: what `finditer` finds of each in a
-- text. The salted hash of an excerpt and the decimal digits outside ASCII are parameters too.
pub mod Luhn
pub mod Typos
pub mod Tests
use real_guard_v.Prelude.{
  ℕ, String, Bool, true, false, not, ◌&&◌, ◌||◌, Option, none, some, List, [], ◌∷◌, ◌++◌, filter,
  length, ltb, leb, ◌==◌, if◌then◌else◌,
}
use real_guard_v.Json.{ℤ, pos, negsuc, obj, field, end, str, num}
use real_guard_v.Numerals.{digit_value, parse_int}
use real_guard_v.Detectors.{
  Plane, response, action, Category, pii_detected, output_pii, Confidence, low_confidence,
  medium_confidence, high_confidence, Finding,
}
use real_guard_v.Orchestrator.{Scan, found, raised}
use real_guard_v.Transform.{luhn_valid}

-- A match object: `start()`, `end()` and `group(0)`.
pub record Match : Type 0 where
  pub start : ℕ
  pub end : ℕ
  pub group : List ℕ

-- `_EMAIL_RE` and so on.
pub record Patterns : Type 0 where
  pub email : List ℕ → List Match
  pub phone : List ℕ → List Match
  pub ssn : List ℕ → List Match
  pub card_candidate : List ℕ → List Match
  pub iban : List ℕ → List Match
  pub ip : List ℕ → List Match
  pub other_digit : ℕ → Option ℕ
  pub salted_excerpt_hash : List ℕ → String

abbrev pub present : Option ℕ → Bool
present none = false
present (some d) = true

-- `int(ch)` of each character; `none` is a `ValueError`.
abbrev pub digits_of : (ℕ → Option ℕ) → List ℕ → Option (List ℕ)
digits_of other [] = some []
digits_of other (c ∷ s) =
    let rest = digits_of other s in
    elim (digit_value other c) [
      | none ↦ none
      | some d ↦ elim rest [ none ↦ none | some ds ↦ some (d ∷ ds) ]
    ]

-- `group.split(".")`
abbrev pub split_dots : List ℕ → List (List ℕ)
split_dots [] = [] ∷ []
split_dots (c ∷ s) =
    let rest = split_dots s in
    if c == b'.'
    then [] ∷ rest
    else elim rest [ [] ↦ (c ∷ []) ∷ [] | part ∷ parts ↦ (c ∷ part) ∷ parts ]

abbrev pub octet : ℤ → Bool
octet (pos n) = leb n 255
octet (negsuc n) = false

-- `all(0 <= int(o) <= 255 for o in octets)`, which stops at the first octet that is not.
unfoldable pub all_octets : (ℕ → Option ℕ) → List (List ℕ) → Option Bool
all_octets other [] = some true
all_octets other (o ∷ os) =
    let rest = all_octets other os in
    elim (parse_int other o) [ none ↦ none | some n ↦ if octet n then rest else some false ]

-- `re.sub(r"[ -]", "", m.group(0))`
abbrev pub card_number : Match → List ℕ
card_number m = filter (λ c. not (c == 32 || c == b'-')) m.group

module _ (p : Patterns) (category : Category) where
  unfoldable pub finding : String → Match → String → ℕ → Confidence → Finding
  finding pattern_id m pii_type score confidence = record {
    detector_id = "pii";
    detector_version = "1.0.0";
    category = category;
    score = score;
    confidence = confidence;
    evidence =
        (record {
          start = m.start;
          end = m.end;
          pattern_id = pattern_id;
          excerpt_hash = p.salted_excerpt_hash m.group;
        })
        ∷ [];
    safe_metadata = obj (field "pii_type" (str pii_type) (field "match_count" (num (pos 1)) end));
  }

  -- The body of each loop: the findings that it appends, and `none` if it raises a `ValueError`.
  unfoldable pub plain : String → String → ℕ → Confidence → Match → Option (List Finding)
  unfolding finding
  plain pattern_id pii_type score confidence m =
      some (finding pattern_id m pii_type score confidence ∷ [])

  unfoldable pub phone_body : Match → Option (List Finding)
  unfolding finding
  phone_body m =
      if ltb (length (filter (λ c. present (digit_value p.other_digit c)) m.group)) 8
      then some []
      else some (finding "phone_e164_v1" m "phone" 9000 high_confidence ∷ [])

  unfoldable pub card_body : Match → Option (List Finding)
  unfolding finding
  card_body m =
      if not (leb 13 (length (card_number m)) && leb (length (card_number m)) 19)
      then some []
      else elim (digits_of p.other_digit (card_number m)) [
        | none ↦ none
        | some digits ↦
            if luhn_valid digits
            then some (finding "credit_card_luhn_v1" m "credit_card" 9000 high_confidence ∷ [])
            else some []
      ]

  unfoldable pub ip_body : Match → Option (List Finding)
  unfolding finding all_octets
  ip_body m = elim (all_octets p.other_digit (split_dots m.group)) [
    | none ↦ none
    | some valid ↦
        if valid
        then some (finding "ip_address_v1" m "ip_address" 6000 low_confidence ∷ [])
        else some []
  ]

  abbrev pub joined : Option (List Finding) → Option (List Finding) → Option (List Finding)
  joined none b = none
  joined (some fs) none = none
  joined (some fs) (some gs) = some (fs ++ gs)

  abbrev pub over : (Match → Option (List Finding)) → List Match → Option (List Finding)
  over body [] = some []
  over body (m ∷ ms) = let rest = over body ms in joined (body m) rest

  unfoldable pub scan_text : List ℕ → Option (List Finding)
  unfolding plain phone_body card_body ip_body
  scan_text text = joined (over (plain "email_v1" "email" 9000 high_confidence) (p.email text)) (
      joined (over phone_body (p.phone text)) (
        joined (over (plain "ssn_v1" "ssn" 9000 high_confidence) (p.ssn text)) (
          joined (over card_body (p.card_candidate text)) (
            joined (over (plain "iban_v1" "iban" 8000 medium_confidence) (p.iban text))
              (over ip_body (p.ip text))))))

abbrev pub category_on : Plane → Category
category_on response = output_pii
category_on _ = pii_detected

-- `PiiDetector.scan` of a normalised text
unfoldable pub scan : Patterns → List ℕ → Plane → Scan
unfolding scan_text
scan p normalized action = found []
scan p normalized plane = elim (scan_text p (category_on plane) normalized) [
  | none ↦ raised "ValueError"
  | some fs ↦ found fs
]
