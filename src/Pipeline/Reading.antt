-- ===== src/Pipeline/Reading.antt =====
-- On which messages and declared tools the loops of app/pipeline.py return.
use real_guard_v.Prelude.{
  ◌≡◌, refl, arith, String, Bool, false, List, [], ◌∷◌, All, true, Bool-cases, inl, inr,
}
use real_guard_v.Json.{Json, Items, Fields, truthy, null, bool, num, str, arr, obj, get_or, is_dict}
use real_guard_v.Detectors.{Plane}
use real_guard_v.Errors.{ok, and_then-eq-ok}
use real_guard_v.Pipeline.{
  Inspection, Seen, message_plane, iterated, scan_message, scan_messages, plane_of,
}

-- A role that a dict of roles can be asked for.
abbrev is_hashable : Json → Bool
is_hashable (arr xs) = false
is_hashable (obj fs) = false
is_hashable _ = true

abbrev pub HasRole : Json → Type 0
HasRole m = (is_dict m ≡ true) × (is_hashable (get_or "role" m (str "user")) ≡ true)

message_plane-ok :
    (role : Json) → is_hashable role ≡ true → (p : Plane) × (message_plane role ≡ ok p)
unfolding message_plane
message_plane-ok null h = (_, refl)
message_plane-ok (bool b) h = (_, refl)
message_plane-ok (num z) h = (_, refl)
message_plane-ok (str s) h = (_, refl)
message_plane-ok (arr xs) h = absurd (ground arith)
message_plane-ok (obj fs) h = absurd (ground arith)

hashable-plane : (role : Json) {p : Plane} → message_plane role ≡ ok p → is_hashable role ≡ true
unfolding message_plane
hashable-plane null h = refl
hashable-plane (bool b) h = refl
hashable-plane (num z) h = refl
hashable-plane (str s) h = refl
hashable-plane (arr xs) h = absurd (ground arith)
hashable-plane (obj fs) h = absurd (ground arith)

HasRole-plane : (m : Json) {p : Plane} → plane_of m ≡ ok p → HasRole m
HasRole-plane m h = elim (Bool-cases (is_dict m)) [
  | inl dict ↦ (dict, hashable-plane (get_or "role" m (str "user")) (rw dict at h))
  | inr other ↦ absurd (ground arith)
]

pub scan_messages-HasRole :
    (i : Inspection) (messages : List Json)
    → All HasRole messages
    → (s : Seen) × (scan_messages i messages ≡ ok s)
unfolding scan_messages
scan_messages-HasRole i [] h = (_, refl)
scan_messages-HasRole i (m ∷ messages) h =
    let (dict, hashable) = h.0 in
    let (plane, told) = message_plane-ok (get_or "role" m (str "user")) hashable in
    let (rest, read) = scan_messages-HasRole i messages h.1 in
    (scan_message i plane m rest, rw (dict, told, read) refl)

pub HasRole-scanned :
    (i : Inspection) (messages : List Json) {s : Seen}
    → scan_messages i messages ≡ ok s
    → All HasRole messages
unfolding scan_messages
HasRole-scanned i [] h = tt
HasRole-scanned i (m ∷ messages) h =
    let (plane, planned, h1) = and_then-eq-ok (plane_of m) _ h in
    let (rest, read, _) = and_then-eq-ok (scan_messages i messages) _ h1 in
    (HasRole-plane m planned, HasRole-scanned i messages read)

-- What can be iterated, or is no tools at all.
pub data Iterable : Json → Type 0 where
  falsy : (v : Json) → truthy v ≡ false → Iterable v
  a_list : (xs : Items) → Iterable (arr xs)
  a_dict : (fs : Fields) → Iterable (obj fs)
  a_text : (s : String) → Iterable (str s)

pub iterated-Iterable : (v : Json) → Iterable v → (xs : List Json) × (iterated v ≡ ok xs)
unfolding iterated
iterated-Iterable v (falsy null h) = (_, refl)
iterated-Iterable v (falsy (bool b) h) = ([], rw h refl)
iterated-Iterable v (falsy (num z) h) = ([], rw h refl)
iterated-Iterable v (falsy (str s) h) = (_, refl)
iterated-Iterable v (falsy (arr xs) h) = (_, refl)
iterated-Iterable v (falsy (obj fs) h) = (_, refl)
iterated-Iterable v (a_list xs) = (_, refl)
iterated-Iterable v (a_dict fs) = (_, refl)
iterated-Iterable v (a_text s) = (_, refl)

pub Iterable-iterated : (v : Json) {xs : List Json} → iterated v ≡ ok xs → Iterable v
unfolding iterated
Iterable-iterated null h = falsy null refl
Iterable-iterated (bool b) h = falsy (bool b) (ground arith)
Iterable-iterated (num z) h = falsy (num z) (ground arith)
Iterable-iterated (str s) h = a_text s
Iterable-iterated (arr xs) h = a_list xs
Iterable-iterated (obj fs) h = a_dict fs
