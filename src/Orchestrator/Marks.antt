-- ===== src/Orchestrator/Marks.antt =====
-- What a detector that fails leaves behind in app/orchestrator.py, and what app/decision.py and
-- app/risk.py make of it.
use real_guard_v.Prelude.{ℕ, ◌≡◌, String, Bool, true, false, none, some, List, [], ◌∷◌, ◌++◌}
use real_guard_v.Json.{pos, num, obj, end, field}
use real_guard_v.Detectors.{Plane, Finding, detector_timeout, low_confidence}
use real_guard_v.Decision.Conditions.{category_scores}
use real_guard_v.Risk.{aggregate_risk}
use real_guard_v.Orchestrator.{
  Detector, Scan, found, late, raised, DetectorExecutionReport, run, degraded,
}

-- The mark of a detector that fails (POL-007, DET-014, ERR-022): the findings and the report.
pub data Marks (timeout_ms : ℕ) (d : Detector)
    : Scan → List Finding → DetectorExecutionReport → Type 0 where
  timed_out :
      Marks timeout_ms d late
        ((record {
          detector_id = d.detector_id;
          detector_version = d.detector_version;
          category = detector_timeout;
          score = 0;
          confidence = low_confidence;
          evidence = [];
          safe_metadata = obj (field "timeout_ms" (num (pos timeout_ms)) end);
        })
          ∷ [])
        (record {
          detector_id = d.detector_id;
          detector_version = d.detector_version;
          is_ok = false;
          timed_out = true;
          error = none;
        })
  threw :
      (name : String)
      → Marks timeout_ms d (raised name) [] (record {
        detector_id = d.detector_id;
        detector_version = d.detector_version;
        is_ok = false;
        timed_out = false;
        error = some name;
      })

abbrev pub fails : Scan → Bool
fails (found findings) = false
fails _ = true

module _ (timeout_ms : ℕ) (plane : Plane) (before : List Detector) (d : Detector)
    (after : List Detector) where
  -- What a run with the detector has, told from the runs of the detectors before and after it.
  pub record Marked : Type 0 where
    pub findings : List Finding
    pub report : DetectorExecutionReport
    pub marks : Marks timeout_ms d (d.scan plane) findings report
    pub findings_eq :
        (run timeout_ms (before ++ (d ∷ after)) plane).findings
        ≡ (run timeout_ms before plane).findings
          ++ (findings ++ (run timeout_ms after plane).findings)
    pub reports_eq :
        (run timeout_ms (before ++ (d ∷ after)) plane).reports
        ≡ (run timeout_ms before plane).reports ++ (report ∷ (run timeout_ms after plane).reports)
    pub is_degraded : degraded (run timeout_ms (before ++ (d ∷ after)) plane) ≡ true
    pub scores_eq :
        category_scores (run timeout_ms (before ++ (d ∷ after)) plane).findings
        ≡ category_scores (run timeout_ms (before ++ after) plane).findings
    pub risk_eq :
        aggregate_risk (run timeout_ms (before ++ (d ∷ after)) plane).findings
        ≡ aggregate_risk (run timeout_ms (before ++ after) plane).findings
