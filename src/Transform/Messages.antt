-- ===== src/Transform/Messages.antt =====
-- `apply_transformation_to_messages` of app/transform.py: the messages that go to the provider or
-- into the row of an approval.
use real_guard_v.Prelude.{List, map}
use real_guard_v.Text.{codes}
use real_guard_v.Unicode.{text_of_codes}
use real_guard_v.Json.{Json, null, str, obj, get_or, set_field}
use real_guard_v.Schemas.{Transformation, unchanged, redact}
use real_guard_v.Transform.{Patterns, TransformationRecord, apply_redact, no_record}
use real_guard_v.Prelude.{ℕ, String}

-- `apply_transformations` of one transformation: only REDACT changes the text.
unfoldable pub transform_text : Patterns → Transformation → List ℕ → List ℕ × TransformationRecord
transform_text p redact text = apply_redact p text
transform_text p _ text = (text, no_record)

abbrev pub new_content : Patterns → Transformation → String → String
new_content p t s = text_of_codes (transform_text p t (codes s)).0

-- `{**m, "content": new_content}` of a message whose content is text
abbrev with_content : Patterns → Transformation → Json → Json → Json
with_content p t (str s) (obj fs) = obj (set_field "content" (str (new_content p t s)) fs)
with_content p t _ m = m

unfoldable pub transform_message : Patterns → Transformation → Json → Json
transform_message p t m = with_content p t (get_or "content" m null) m

unfoldable pub apply_transformation_to_messages : Patterns → Transformation → List Json → List Json
unfolding transform_message
apply_transformation_to_messages p unchanged messages = messages
apply_transformation_to_messages p t messages = map (transform_message p t) messages
