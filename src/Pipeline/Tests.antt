-- ===== src/Pipeline/Tests.antt =====
-- A test of app/pipeline.py: a message, and a declared function that a rule holds.
use real_guard_v.Prelude.{◌≡◌, ◌↔◌, refl, false, List, [], ◌∷◌}
use real_guard_v.Json.{Json, str, arr, obj, num, pos, nil, field, end, from_list}
use real_guard_v.Errors.{ok, err, type_error}
use real_guard_v.Decision.Tests.{casing}
use real_guard_v.Outputguard.Tests.{policy}
use real_guard_v.Pipeline.{
  Inspection, PipelineResult, run_input_pipeline, scan_messages, iterated,
  tool_candidates_from_declared_tools, message_plane,
}
use real_guard_v.Pipeline.Outcome.{Told, HasVerdict, Readable, pipeline-strongest}

abbrev pub inspection : Inspection
inspection = record {
  scan = λ plane text. ([], false);
  scan_tool_call = λ name arguments. ok [];
  byte_count = λ messages. ok 20;
}

abbrev messages : List Json
messages = obj (field "role" (str "user") (field "content" (str "hi") end)) ∷ []

abbrev pub tools : List Json
tools =
    obj (
      field "type" (str "function")
        (field "function" (obj (field "name" (str "transfer") end)) end))
    ∷ []

pipeline-strongest_example :
    (((r : PipelineResult) × (run_input_pipeline casing policy inspection messages
            (arr (from_list tools))
          ≡ ok r))
      ↔ Readable casing policy inspection messages (arr (from_list tools)))
    × Told
        (HasVerdict casing policy inspection messages (arr (from_list tools)))
        (run_input_pipeline casing policy inspection messages (arr (from_list tools)))
pipeline-strongest_example =
    pipeline-strongest casing policy inspection messages (arr (from_list tools))

-- A dict of tools declares none; a number of them, or a role that is a list, raises.
odd_tools :
    (iterated (obj (field "function" (str "f") end)) ≡ ok (str "function" ∷ []))
    × (tool_candidates_from_declared_tools (str "function" ∷ []) ≡ [])
    × (iterated (num (pos 1)) ≡ err type_error)
    × (scan_messages inspection (obj (field "role" (arr nil) end) ∷ []) ≡ err type_error)
unfolding iterated tool_candidates_from_declared_tools scan_messages message_plane
odd_tools = (refl, refl, refl, refl)
