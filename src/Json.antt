-- ===== src/Json.antt =====
-- JSON values as the program sees them after `json.loads`: payloads of chat requests, tool
-- arguments, audit payloads. Numbers are integers. The functions are the dict and list accesses
-- of app/approvals.py, app/outputguard.py and app/decision.py.
use real_guard_v.Prelude.{
  ℕ, zero, String, Bool, true, false, Option, none, some, List, [], ◌∷◌, str_eq, if◌then◌else◌,
}

-- `negsuc n` is -(n + 1).
pub data ℤ : Type 0 where
  pos : ℕ → ℤ
  negsuc : ℕ → ℤ

mutual
  pub data Json : Type 0 where
    null : Json
    bool : Bool → Json
    num : ℤ → Json
    str : String → Json
    arr : Items → Json
    obj : Fields → Json

  pub data Items : Type 0 where
    nil : Items
    cons : Json → Items → Items

  pub data Fields : Type 0 where
    end : Fields
    field : String → Json → Fields → Fields

abbrev pub field_of : String → Fields → Option Json
field_of k end = none
field_of k (field j v fs) = if str_eq j k then some v else field_of k fs

-- `value.get(key)` where `value` is a dict; anything else has no keys.
abbrev pub get : String → Json → Option Json
get k (obj fs) = field_of k fs
get k _ = none

abbrev pub get_or : String → Json → Json → Json
get_or k v d = elim (get k v) [ none ↦ d | some w ↦ w ]

-- `fs[k] = v` for a key that is there.
abbrev pub set_field : String → Json → Fields → Fields
set_field k v end = end
set_field k v (field j w fs) = if str_eq j k then field j v fs else field j w (set_field k v fs)

abbrev pub is_dict : Json → Bool
is_dict (obj _) = true
is_dict _ = false

-- `bool(value)`
abbrev pub truthy : Json → Bool
truthy null = false
truthy (bool b) = b
truthy (num (pos zero)) = false
truthy (num _) = true
truthy (str String.[]) = false
truthy (str _) = true
truthy (arr nil) = false
truthy (arr _) = true
truthy (obj end) = false
truthy (obj _) = true

abbrev pub elements : Items → List Json
elements nil = []
elements (cons x xs) = x ∷ elements xs

abbrev pub from_list : List Json → Items
from_list [] = nil
from_list (x ∷ xs) = cons x (from_list xs)
