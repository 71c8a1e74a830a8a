-- ===== src/Orchestrator.antt =====
-- app/orchestrator.py: the applicable detectors of a plane, each with a deadline, and what their
-- failures leave behind. How a scan ends (in time, late, or with an exception) is a parameter.
pub mod Marks
pub mod Tests
use real_guard_v.Prelude.{
  ℕ, ◌≡◌, refl, ◌∙◌, sym, ap, arith, String, Bool, true, false, not, ◌||◌, ◌&&◌, Option, none, some,
  List, [], ◌∷◌, ◌++◌, any, filter, filter-append, if◌then◌else◌,
}
use mathlib.Core.List.{append_assoc}
use real_guard_v.Json.{Json, ℤ, pos, num, obj, end, field}
use real_guard_v.Detectors.{Plane, Finding, detector_timeout, low_confidence}
use real_guard_v.Decision.Conditions.{is_timeout}

pub record DetectorExecutionReport : Type 0 where
  pub detector_id : String
  pub detector_version : String
  pub is_ok : Bool
  pub timed_out : Bool
  pub error : Option String

-- How one scan ends; an exception is known by the name of its type.
pub data Scan : Type 0 where
  found : List Finding → Scan
  late : Scan
  raised : String → Scan

-- A detector on one content, with one salt.
pub record Detector : Type 0 where
  pub detector_id : String
  pub detector_version : String
  pub supports : Plane → Bool
  pub scan : Plane → Scan

abbrev timeout_finding : Detector → ℕ → Finding
timeout_finding d timeout_ms = record {
  detector_id = d.detector_id;
  detector_version = d.detector_version;
  category = detector_timeout;
  score = 0;
  confidence = low_confidence;
  evidence = [];
  safe_metadata = obj (field "timeout_ms" (num (pos timeout_ms)) end);
}

abbrev report : Detector → Bool → Bool → Option String → DetectorExecutionReport
report d is_ok timed_out error = record {
  detector_id = d.detector_id;
  detector_version = d.detector_version;
  is_ok = is_ok;
  timed_out = timed_out;
  error = error;
}

-- `_run_one`
unfoldable pub run_one : ℕ → Detector → Scan → DetectorExecutionReport × List Finding
run_one timeout_ms d (found findings) = (report d true false none, findings)
run_one timeout_ms d late = (report d false true none, timeout_finding d timeout_ms ∷ [])
run_one timeout_ms d (raised name) = (report d false false (some name), [])

pub record OrchestratorResult : Type 0 where
  pub findings : List Finding
  pub reports : List DetectorExecutionReport

abbrev pub degraded : OrchestratorResult → Bool
degraded r = any (λ (p : DetectorExecutionReport). not p.is_ok) r.reports

-- The loop over the results of the applicable detectors.
unfoldable pub collect : ℕ → Plane → List Detector → OrchestratorResult
unfolding run_one
collect timeout_ms plane [] = record { findings = []; reports = [] }
collect timeout_ms plane (d ∷ detectors) =
    let rest = collect timeout_ms plane detectors in
    let (p, findings) = run_one timeout_ms d (d.scan plane) in
    record { findings = findings ++ rest.findings; reports = p ∷ rest.reports }

-- `DetectorOrchestrator.run`
unfoldable pub run : ℕ → List Detector → Plane → OrchestratorResult
unfolding collect
run timeout_ms detectors plane =
    collect timeout_ms plane (filter (λ (d : Detector). d.supports plane) detectors)
