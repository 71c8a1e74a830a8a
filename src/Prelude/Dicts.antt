-- ===== src/Prelude/Dicts.antt =====
-- Python dicts with text keys as association lists in insertion order, and sorted sets of text.
use Prim.Native.Char.{code}
use Prim.Native.String.{String}
use mathlib.Core.Path.{◌≡◌, refl}
use mathlib.Core.Bool.{Bool, true, false, ◌||◌}
use mathlib.Core.Option.{Option, none, some}
use mathlib.Core.List.{List, [], ◌∷◌}
use native.Mathlib.Omega.{arith}
use text.Mathlib.Text.{◌==◌ as str_eq}
use text.Mathlib.TextEquality.{eq_iff}
use real_guard_v.Prelude.Tests.{if◌then◌else◌, ltb, ◌==◌}
use real_guard_v.Prelude.Lists.{any}

-- `d.get(k)`
abbrev pub lookup {ℓ} : {V : Type ℓ} → String → List (String × V) → Option V
lookup k [] = none
lookup k ((j, v) ∷ d) = if str_eq j k then some v else lookup k d

-- `d[k] = v`: a key that is there keeps its place.
abbrev pub put {ℓ} : {V : Type ℓ} → String → V → List (String × V) → List (String × V)
put k v [] = (k, v) ∷ []
put k v ((j, w) ∷ d) = let rest = put k v d in if str_eq j k then (j, v) ∷ d else (j, w) ∷ rest

pub lookup-put {ℓ} :
    {V : Type ℓ} (i k : String) (v : V) (d : List (String × V))
    → lookup i (put k v d) ≡ (if str_eq k i then some v else lookup i d)
lookup-put i k v [] = refl
lookup-put i k v ((j, w) ∷ d) =
    ground (arith, lookup-put i k v d, eq_iff j k, eq_iff j i, eq_iff k i)

-- Python's `<` on text: by code points, the first difference decides.
abbrev pub text_before : String → String → Bool
text_before _ String.[] = false
text_before String.[] (String.◌∷◌ _ _) = true
text_before (String.◌∷◌ c s) (String.◌∷◌ d t) =
    let rest = text_before s t in
    if ltb (code c) (code d) then true else if code c == code d then rest else false

-- `c in xs`
abbrev pub mem : String → List String → Bool
mem c xs = any (str_eq c) xs

abbrev pub insert_sorted : String → List String → List String
insert_sorted k [] = k ∷ []
insert_sorted k (x ∷ xs) =
    let rest = insert_sorted k xs in
    if str_eq k x then x ∷ xs else if text_before k x then k ∷ x ∷ xs else x ∷ rest

-- `sorted(set(xs))`
abbrev pub sorted_set : List String → List String
sorted_set [] = []
sorted_set (x ∷ xs) = insert_sorted x (sorted_set xs)

mem-insert_sorted :
    (c k : String) (xs : List String) → mem c (insert_sorted k xs) ≡ (str_eq c k || mem c xs)
mem-insert_sorted c k [] = refl
mem-insert_sorted c k (x ∷ xs) =
    ground (arith, mem-insert_sorted c k xs, eq_iff k x, eq_iff c k, eq_iff c x)

-- A sorted set has the entries of the list.
pub mem-sorted_set : (c : String) (xs : List String) → mem c (sorted_set xs) ≡ mem c xs
mem-sorted_set c [] = refl
mem-sorted_set c (x ∷ xs) =
    ground (arith, mem-insert_sorted c x (sorted_set xs), mem-sorted_set c xs)
