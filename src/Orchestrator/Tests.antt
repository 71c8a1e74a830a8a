-- ===== src/Orchestrator/Tests.antt =====
-- A test of app/orchestrator.py: a detector that is late, between two that are not.
use real_guard_v.Prelude.{true, []}
use real_guard_v.Orchestrator.{Detector, found, late}

abbrev quick : Detector
quick = record {
  detector_id = "pii";
  detector_version = "1";
  supports = λ plane. true;
  scan = λ plane. found [];
}

abbrev slow : Detector
slow = record quick { detector_id = "secrets"; scan = λ plane. late }
