-- ===== src/Risk/Tests.antt =====
-- A test of app/risk.py: an injection of a high score, and a detector that timed out.
use real_guard_v.Prelude.{◌≡◌, [], ◌∷◌}
use real_guard_v.Json.{null}
use real_guard_v.Detectors.{Finding, high_confidence, prompt_injection, detector_timeout}
use real_guard_v.Risk.{aggregate_risk, aggregate_risk-top, score_to_level, top_score, InBand}

abbrev found : Finding
found = record {
  detector_id = "prompt_injection";
  detector_version = "1";
  category = prompt_injection;
  score = 8700;
  confidence = high_confidence;
  evidence = [];
  safe_metadata = null;
}

abbrev timed_out : Finding
timed_out = record found { category = detector_timeout; score = 0 }

aggregate_risk-top_example :
    ((aggregate_risk (found ∷ timed_out ∷ [])).risk_level
      ≡ score_to_level (top_score (found ∷ timed_out ∷ [])))
    × InBand
        (top_score (found ∷ timed_out ∷ []))
        (aggregate_risk (found ∷ timed_out ∷ [])).risk_level
aggregate_risk-top_example = aggregate_risk-top (found ∷ timed_out ∷ [])
