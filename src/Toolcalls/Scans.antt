-- ===== src/Toolcalls/Scans.antt =====
-- app/detectors/tool_calls.py, `scan_tool_call`: the findings on a call.
use real_guard_v.Prelude.{
  ℕ, String, Bool, true, false, not, ◌&&◌, ◌||◌, Option, none, some, List, [], ◌∷◌, ◌++◌, any, mem,
  if◌then◌else◌,
}
use real_guard_v.Json.{Json, ℤ, num, str, obj, field, end, get, is_dict}
use real_guard_v.Text.{
  Casing, codes, strip, upper, lower, first_word, starts_with, contains, same_codes,
}
use real_guard_v.Unicode.{text_of_codes}
use real_guard_v.Detectors.{
  Finding, Evidence, Category, schema_violation, tool_not_allowlisted, sensitive_action,
  destructive_action, Confidence, medium_confidence, high_confidence,
}
use real_guard_v.Decision.Commands.{shell_needles}
use real_guard_v.Decision.Conditions.{ltz}
use real_guard_v.Toolcalls.{ToolCallsDetector, or_else}

unfoldable pub reported : Category → ℕ → Confidence → List Evidence → Json → Finding
reported c score confidence evidence safe_metadata = record {
  detector_id = "tool_calls";
  detector_version = "1.0.0";
  category = c;
  score = score;
  confidence = confidence;
  evidence = evidence;
  safe_metadata = safe_metadata;
}

abbrev pub only_if : Bool → Finding → List Finding
only_if b f = if b then f ∷ [] else []

abbrev pub outside : Option (List String) → String → Bool
outside none tool_name = false
outside (some names) tool_name = not (mem tool_name names)

-- An `int` that is no `bool`, against a bound that is there.
abbrev pub reaches : Option Json → Option ℤ → Bool
reaches (some (num z)) (some n) = not (ltz z n)
reaches _ _ = false

abbrev pub is_blank : List ℕ → Bool
is_blank [] = true
is_blank (c ∷ s) = false

unfoldable pub verb_of : Casing → List ℕ → List ℕ
unfolding strip first_word upper
verb_of u query = upper u (first_word (strip query))

unfoldable pub is_unbounded : Casing → List ℕ → Bool
unfolding strip upper
is_unbounded u query =
    let text = upper u query in
    (starts_with (codes "DELETE") (strip text) || starts_with (codes "UPDATE") (strip text))
    && not (contains (codes "WHERE") text)

unfoldable pub is_destructive_sql : Casing → List (List ℕ) → List ℕ → Bool
unfolding strip verb_of is_unbounded
is_destructive_sql u verbs query =
    not (is_blank (strip query))
    && (any (same_codes (verb_of u query)) verbs || is_unbounded u query)

-- `_matches_shell_pattern`
unfoldable pub has_shell_pattern : Casing → List String → List ℕ → Bool
unfolding lower
has_shell_pattern u names command =
    let lowered = lower u command in
    any (λ name. any (λ needle. contains (lower u (codes needle)) lowered) (shell_needles name))
      names

abbrev pub as_text : Option Json → Option (List ℕ)
as_text (some (str s)) = some (codes s)
as_text _ = none

abbrev pub tool_metadata : String → Json
tool_metadata tool_name = obj (field "tool_name" (str tool_name) end)

abbrev pub amount_metadata : String → Option Json → Json
amount_metadata tool_name amount =
    obj (
      field "tool_name" (str tool_name)
        (elim amount [ none ↦ end | some v ↦ field "amount" v end ]))

abbrev pub sql_finding : Casing → ToolCallsDetector → String → Option (List ℕ) → List Finding
sql_finding u t tool_name none = []
sql_finding u t tool_name (some query) = only_if (is_destructive_sql u t.sql_verbs query) (
    reported destructive_action 9500 high_confidence [] (
      obj (
        field "tool_name" (str tool_name)
          (field "sql_verb" (str (text_of_codes (verb_of u query))) end))))

abbrev pub shell_finding : Casing → ToolCallsDetector → String → Option (List ℕ) → List Finding
shell_finding u t tool_name none = []
shell_finding u t tool_name (some command) =
    only_if (has_shell_pattern u t.shell_pattern_names command)
      (reported destructive_action 9500 high_confidence [] (tool_metadata tool_name))

-- The findings on arguments that are a dict.
unfoldable pub scan_arguments : Casing → ToolCallsDetector → String → Json → List Finding
unfolding is_destructive_sql has_shell_pattern verb_of text_of_codes reported
scan_arguments u t tool_name args =
    only_if (outside t.allowlist tool_name)
      (reported tool_not_allowlisted 9000 high_confidence [] (tool_metadata tool_name))
    ++ only_if
        (mem tool_name t.high_value_tools && reaches (get "amount" args) t.high_value_threshold)
        (reported sensitive_action 8500 high_confidence []
          (amount_metadata tool_name (get "amount" args)))
    ++ sql_finding u t tool_name (as_text (get "query" args))
    ++ shell_finding u t tool_name (as_text (get "command" args))

abbrev pub dict_or_empty : Json → Json
dict_or_empty v = if is_dict v then v else obj end

-- `loads` is `json.loads`, `none` if it raises; `salted` is `salted_excerpt_hash` under the salt.
module _ (loads : String → Option Json) (salted : String → String) where
  unfoldable pub scan_tool_call :
      Casing → ToolCallsDetector → String → Option Json → Option String → List Finding
  unfolding scan_arguments reported
  scan_tool_call u t tool_name tool_arguments none =
      scan_arguments u t tool_name (or_else tool_arguments (obj end))
  scan_tool_call u t tool_name tool_arguments (some raw) = elim (loads raw) [
    | none ↦
        reported schema_violation 6000 medium_confidence
          ((record {
            start = 0;
            end = 0;
            pattern_id = "unparseable_tool_arguments_v1";
            excerpt_hash = salted raw;
          })
            ∷ [])
          (tool_metadata tool_name)
        ∷ []
    | some parsed ↦ scan_arguments u t tool_name (dict_or_empty parsed)
  ]
