-- ===== src/Risk.antt =====
-- app/risk.py: the scores of the categories and the risk level of a list of findings. Scores are in
-- ten-thousandths.
pub mod Tests
use real_guard_v.Prelude.{
  ℕ, zero, ◌≡◌, refl, arith, String, Bool, true, false, not, ◌&&◌, ◌||◌, List, [], ◌∷◌, any, filter,
  leb, ltb, ◌==◌, if◌then◌else◌, lookup, put, ◌∙◌, ap, eq_iff, Option, none, some, ◌≤◌, ◌<◌, all,
  if_both,
}
use real_guard_v.Schemas.{RiskLevel, no_risk, low, medium, high, critical}
use real_guard_v.Detectors.{Finding, value, Category}
use real_guard_v.Decision.Conditions.{is_timeout, max, category_scores, score_or_zero, add_scores}

-- `_score_to_level`
abbrev pub score_to_level : ℕ → RiskLevel
score_to_level s =
    if leb s 0
    then no_risk
    else if ltb s 4000
    then low
    else if ltb s 7000
    then medium
    else if ltb s 9000
    then high
    else critical

pub record RiskAssessment : Type 0 where
  pub category_scores_of : List (String × ℕ)
  pub risk_level : RiskLevel

abbrev pub highest : List (String × ℕ) → ℕ
highest [] = 0
highest ((c, s) ∷ scores) = max s (highest scores)

unfoldable pub aggregate_risk : List Finding → RiskAssessment
unfolding category_scores
aggregate_risk findings = record {
  category_scores_of = category_scores findings;
  risk_level = score_to_level (highest (category_scores findings));
}

-- The highest score of the findings that are not the sign of a timeout.
abbrev pub top_score : List Finding → ℕ
top_score [] = 0
top_score (f ∷ findings) =
    let rest = top_score findings in if is_timeout f.category then rest else max f.score rest

highest-put :
    (k : String) (v : ℕ) (d : List (String × ℕ))
    → highest (put k (max (score_or_zero (lookup k d)) v) d) ≡ max (highest d) v
highest-put k v [] = ground arith
highest-put k v ((j, s) ∷ d) = ground (arith, highest-put k v d)

highest-add_scores :
    (d : List (String × ℕ)) (findings : List Finding)
    → highest (add_scores d findings) ≡ max (highest d) (top_score findings)
unfolding add_scores
highest-add_scores d [] = ground arith
highest-add_scores d (f ∷ findings) = ground (
  arith,
  highest-add_scores d findings,
  highest-add_scores
      (put (value f.category) (max (score_or_zero (lookup (value f.category) d)) f.score) d)
      findings,
  highest-put (value f.category) f.score d,
)

zero-max : (n : ℕ) → max 0 n ≡ n
zero-max n = ground arith

-- The bands of the levels.
abbrev pub InBand : ℕ → RiskLevel → Type 0
InBand s no_risk = s ≡ 0
InBand s low = (0 < s) × (s < 4000)
InBand s medium = (4000 ≤ s) × (s < 7000)
InBand s high = (7000 ≤ s) × (s < 9000)
InBand s critical = 9000 ≤ s

score_to_level-InBand : (s : ℕ) → InBand s (score_to_level s)
score_to_level-InBand s =
    if_both (InBand s) (leb s 0) (λ h. ground arith)
      λ h0.
        if_both (InBand s) (ltb s 4000) (λ h. (ground arith, ground arith))
          λ h1.
            if_both (InBand s) (ltb s 7000) (λ h. (ground arith, ground arith))
              λ h2.
                if_both (InBand s) (ltb s 9000) (λ h. (ground arith, ground arith))
                  λ h3. ground arith

-- The risk level is that of the highest score of a finding that is not the sign of a timeout, and
-- NONE without such a finding: NONE for 0, LOW below 0.4, MEDIUM below 0.7, HIGH below 0.9, and
-- CRITICAL from there on.
pub aggregate_risk-top :
    (findings : List Finding)
    → ((aggregate_risk findings).risk_level ≡ score_to_level (top_score findings))
      × InBand (top_score findings) (aggregate_risk findings).risk_level
unfolding aggregate_risk category_scores
aggregate_risk-top findings =
    let same = ap score_to_level (highest-add_scores [] findings ∙ zero-max (top_score findings)) in
    (same, rw same (score_to_level-InBand (top_score findings)))
