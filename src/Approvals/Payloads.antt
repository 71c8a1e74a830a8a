-- ===== src/Approvals/Payloads.antt =====
-- What `resume_approved` of app/approvals.py reads of a stored payload and of a provider's response,
-- and the response that it stores.
use real_guard_v.Prelude.{String, Option, none, some, List, [], ◌∷◌, str_eq, if◌then◌else◌}
use real_guard_v.Json.{Json, null, str, arr, obj, nil, cons, get_or, set_field, truthy, elements}
use real_guard_v.Errors.{Result, ok, err, type_error}

-- `transformed_payload.get("messages", [])`, a list in every payload that the gateway writes.
abbrev pub payload_messages : Json → List Json
payload_messages payload = elim (get_or "messages" payload (arr nil)) [
  | arr xs ↦ elements xs
  | _ ↦ []
]

-- `app/outputguard.py`, `system_prompt_text_from_messages`
abbrev system_text : Json → Option String
system_text m = elim (get_or "role" m null) [
  | str role ↦
      if str_eq role "system"
      then elim (get_or "content" m null) [ str s ↦ some s | _ ↦ none ]
      else none
  | _ ↦ none
]

unfoldable pub system_prompt_text_from_messages : List Json → String
system_prompt_text_from_messages [] = ""
system_prompt_text_from_messages (m ∷ messages) =
    let rest = system_prompt_text_from_messages messages in
    elim (system_text m) [ none ↦ rest | some s ↦ s ]

-- `choices[0]`, where `choices = upstream_response.get("choices") or []`; a response whose choices
-- are neither a list nor falsy makes the index raise.
unfoldable pub first_choice : Json → Result (Option Json)
first_choice response = elim (get_or "choices" response null) [
  | arr xs ↦ elim xs [ nil ↦ ok none | cons x _ ↦ ok (some x) ]
  | str s ↦ ok none
  | other ↦ if truthy other then err type_error else ok none
]

abbrev pub content_of : Option Json → Json
content_of none = str ""
content_of (some choice) =
    let content = get_or "content" (get_or "message" choice null) null in
    if truthy content then content else str ""

abbrev set_content : Json → Json → Json
set_content content (obj fs) = obj (set_field "content" content fs)
set_content content m = m

abbrev set_choice : Json → Json → Json
set_choice content (obj fs) =
    obj (set_field "message" (set_content content (get_or "message" (obj fs) null)) fs)
set_choice content c = c

abbrev set_choices : Json → Json → Json
set_choices content (arr (cons c xs)) = arr (cons (set_choice content c) xs)
set_choices content other = other

-- The copy of the response with the guarded content in its first choice.
unfoldable pub sanitized_response : Json → Json → Json
sanitized_response content (obj fs) =
    obj (set_field "choices" (set_choices content (get_or "choices" (obj fs) null)) fs)
sanitized_response content other = other
