-- ===== src/Materialargs.antt =====
-- app/materialargs.py: what the hash of the material arguments covers. The digest of a JSON value
-- (SHA-256 of its canonical text) is a parameter.
use real_guard_v.Prelude.{String, List, [], map, if◌then◌else◌}
use real_guard_v.Json.{Json, null, arr, obj, end, field, get_or, truthy, from_list}

-- `{"role": m.get("role"), "content": m.get("content")}`
abbrev pub material_message : Json → Json
material_message m =
    obj (field "role" (get_or "role" m null) (field "content" (get_or "content" m null) end))

-- The messages are a list; the tools are a list or missing.
abbrev pub material : List Json → Json → Json
material messages tools = obj (
    field "messages" (arr (from_list (map material_message messages)))
      (field "tools" (if truthy tools then tools else arr (from_list [])) end))

unfoldable pub compute_material_args_hash : (Json → String) → List Json → Json → String
compute_material_args_hash digest messages tools = digest (material messages tools)
