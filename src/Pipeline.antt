-- ===== src/Pipeline.antt =====
-- app/pipeline.py: the findings of a request's messages and declared tools, and the decision on them.
-- The detectors, the tool call detector and the size of the request as JSON are parameters.
pub mod Reading
pub mod Outcome
pub mod Tests
use real_guard_v.Prelude.{
  ℕ, ◌+◌, ◌≡◌, refl, ◌∙◌, sym, ap, arith, String, Bool, true, false, not, ◌||◌, ◌&&◌, Option, none,
  some, List, [], ◌∷◌, ◌++◌, map, any, filter, if◌then◌else◌, str_eq, any-map,
}
use real_guard_v.Json.{
  Json, null, str, arr, obj, end, get, get_or, is_dict, truthy, elements, Items, nil, cons, Fields,
  field,
}
use real_guard_v.Errors.{Result, ok, err, and_then, type_error}
use real_guard_v.Text.{Casing}
use real_guard_v.Schemas.{Verdict, is_deny}
use real_guard_v.Detectors.{Plane, input, context, response, action, Finding}
use real_guard_v.Policy.{Rule, Policy}
use real_guard_v.Risk.{RiskAssessment, aggregate_risk}
use real_guard_v.Decision.Evaluate.{Facts, Decision, evaluate_policy}
use real_guard_v.Decision.Combine.{combine_decisions, combine-strongest, any_verdict}
use real_guard_v.Decision.Precedence.{strongest, is_need, fires_with, verdict-strongest}

-- `message_plane`: a role that is no text and can be hashed is in no table; a list or a dict raises.
unfoldable pub message_plane : Json → Result Plane
message_plane (str role) =
    ok (if str_eq role "assistant" then context else if str_eq role "tool" then context else input)
message_plane (arr xs) = err type_error
message_plane (obj fs) = err type_error
message_plane _ = ok input

-- A declared function's name and arguments, if the entry is one.
abbrev name_of : Json → Option String
name_of (str String.[]) = none
name_of (str name) = some name
name_of _ = none

abbrev arguments_of : Json → Json
arguments_of function =
    let parameters = get_or "parameters" function null in
    if is_dict parameters then parameters else obj end

abbrev is_function_type : Json → Bool
is_function_type (str s) = str_eq s "function"
is_function_type _ = false

pub candidate_of : Json → Option (String × Json)
candidate_of tool =
    let function = get_or "function" tool null in
    if is_function_type (get_or "type" tool null) && is_dict function
    then elim (name_of (get_or "name" function null)) [
      | none ↦ none
      | some name ↦ some (name, arguments_of function)
    ]
    else none

unfoldable pub tool_candidates_from_declared_tools : List Json → List (String × Json)
unfolding candidate_of
tool_candidates_from_declared_tools [] = []
tool_candidates_from_declared_tools (tool ∷ tools) =
    let rest = tool_candidates_from_declared_tools tools in
    elim (candidate_of tool) [ none ↦ rest | some c ↦ c ∷ rest ]

abbrev letters : String → List Json
letters String.[] = []
letters (String.◌∷◌ c s) = str (String.◌∷◌ c String.[]) ∷ letters s

abbrev keys_of : Fields → List Json
keys_of end = []
keys_of (field k v fs) = str k ∷ keys_of fs

-- What `for tool in tools or []` goes over: the entries of a list, the keys of a dict, the characters
-- of a text; what is none of them raises, unless it is falsy.
unfoldable pub iterated : Json → Result (List Json)
iterated (arr xs) = ok (elements xs)
iterated (obj fs) = ok (keys_of fs)
iterated (str s) = ok (letters s)
iterated v = if truthy v then err type_error else ok []

-- What the detectors see: the findings in a message's text on its plane, with the sign of a degraded
-- run, and the findings of the tool call detector, or what it raises. The size of the messages as
-- JSON in UTF-8 is an error on text that has none, a lone surrogate.
pub record Inspection : Type 0 where
  pub scan : Plane → String → List Finding × Bool
  pub scan_tool_call : String → Json → Result (List Finding)
  pub byte_count : List Json → Result ℕ

-- The findings by plane, and whether a detector failed.
pub record Seen : Type 0 where
  pub on_input : List Finding
  pub on_context : List Finding
  pub on_action : List Finding
  pub is_degraded : Bool

abbrev on_plane : Seen → Plane → List Finding
on_plane s input = s.on_input
on_plane s context = s.on_context
on_plane s action = s.on_action
on_plane s response = []

-- `message_plane(message.get("role", "user"))`
abbrev pub plane_of : Json → Result Plane
plane_of m = if is_dict m then message_plane (get_or "role" m (str "user")) else err type_error

abbrev add_message : Plane → List Finding × Bool → Seen → Seen
add_message context (findings, failed) s = record s {
  on_context = findings ++ s.on_context;
  is_degraded = failed || s.is_degraded;
}
add_message _ (findings, failed) s = record s {
  on_input = findings ++ s.on_input;
  is_degraded = failed || s.is_degraded;
}

-- The body of the loop over the messages; a message whose content is not text is skipped, and one
-- without content is scanned as an empty text.
abbrev scan_message : Inspection → Plane → Json → Seen → Seen
scan_message i plane m rest = elim (get_or "content" m null) [
  | str s ↦ add_message plane (i.scan plane s) rest
  | other ↦ if truthy other then rest else add_message plane (i.scan plane "") rest
]

unfoldable pub scan_messages : Inspection → List Json → Result Seen
unfolding message_plane
scan_messages i [] =
    ok (record { on_input = []; on_context = []; on_action = []; is_degraded = false })
scan_messages i (m ∷ messages) =
    let rest = scan_messages i messages in
    and_then (plane_of m) λ plane. and_then rest λ s. ok (scan_message i plane m s)

-- The loop over the candidates.
unfoldable pub scan_candidates : Inspection → List (String × Json) → Seen → Seen
scan_candidates i [] s = s
scan_candidates i ((name, arguments) ∷ candidates) s =
    let rest = scan_candidates i candidates s in
    elim (i.scan_tool_call name arguments) [
      | ok findings ↦ record rest { on_action = findings ++ rest.on_action }
      | err _ ↦ record rest { is_degraded = true }
    ]

pub record PipelineResult : Type 0 where
  pub decision : Decision
  pub risk : RiskAssessment
  pub findings : List Finding
  pub degraded : Bool

-- What the policy is shown for a candidate, or for a request without one.
abbrev pub facts_of : ℕ → Seen → Option (String × Json) → Facts
facts_of byte_count s none = record {
  findings_by_plane = on_plane s;
  byte_count = byte_count;
  tool_name = none;
  tool_arguments = obj end;
}
facts_of byte_count s (some (name, arguments)) = record {
  findings_by_plane = on_plane s;
  byte_count = byte_count;
  tool_name = some name;
  tool_arguments = arguments;
}

-- One decision without candidates, else one for each of them, combined.
abbrev pub subjects : List (String × Json) → List (Option (String × Json))
subjects [] = none ∷ []
subjects (c ∷ candidates) = map some (c ∷ candidates)

module _ (u : Casing) (policy : Policy) where
  unfoldable pub decide_candidates : ℕ → Seen → List (String × Json) → Result Decision
  decide_candidates n s [] = ok (evaluate_policy u policy (facts_of n s none) s.is_degraded)
  decide_candidates n s (c ∷ candidates) =
      combine_decisions
        (map (λ k. evaluate_policy u policy (facts_of n s (some k)) s.is_degraded) (c ∷ candidates))

  abbrev pub result_of : Seen → Decision → PipelineResult
  result_of s decision =
      let findings = s.on_input ++ (s.on_context ++ s.on_action) in
      record {
        decision = decision;
        risk = aggregate_risk findings;
        findings = findings;
        degraded = s.is_degraded;
      }

  -- The steps in their order: the messages, the declared tools, the size, the decision.
  unfoldable pub run_input_pipeline : Inspection → List Json → Json → Result PipelineResult
  unfolding tool_candidates_from_declared_tools scan_messages scan_candidates decide_candidates
      iterated
  run_input_pipeline i messages tools = and_then (scan_messages i messages) λ read.
      and_then (iterated tools) λ entries.
        let candidates = tool_candidates_from_declared_tools entries in
        let s = scan_candidates i candidates read in
        and_then (i.byte_count messages)
          λ n. and_then (decide_candidates n s candidates) λ decision. ok (result_of s decision)
