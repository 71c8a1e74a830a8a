-- ===== src/Prelude/Lists.antt =====
-- Lists measured by native numbers, and predicates over the entries of a list.
use Prim.Native.Nat.{ℕ, suc, ◌+◌}
use mathlib.Core.Path.{◌≡◌, refl}
use mathlib.Core.Logic.{◌⊎◌, inl, inr}
use mathlib.Core.Bool.{Bool, true, false, ◌||◌, ◌&&◌}
use mathlib.Core.List.{List, [], ◌∷◌, ◌++◌, map}
use native.Mathlib.Omega.{arith}
use real_guard_v.Prelude.Tests.{if◌then◌else◌, if_both, Bool-cases}

module _ {ℓ} {A : Type ℓ} where
  abbrev pub length : List A → ℕ
  length [] = 0
  length (x ∷ xs) = suc (length xs)

  pub length-append : (xs ys : List A) → length (xs ++ ys) ≡ length xs + length ys
  length-append [] ys = omega arith
  length-append (x ∷ xs) ys = omega (arith, length-append xs ys)

  -- `any(p(x) for x in xs)` and `all(p(x) for x in xs)`
  abbrev pub any : (A → Bool) → List A → Bool
  any p [] = false
  any p (x ∷ xs) = p x || any p xs

  abbrev pub all : (A → Bool) → List A → Bool
  all p [] = true
  all p (x ∷ xs) = p x && all p xs

  -- `[x for x in xs if p(x)]`
  abbrev pub filter : (A → Bool) → List A → List A
  filter p [] = []
  filter p (x ∷ xs) = let rest = filter p xs in if p x then x ∷ rest else rest

module _ {ℓ} {A : Type ℓ} where
  -- Every entry satisfies `P`; a tuple, which the tactics read and build.
  abbrev pub All : (A → Type 0) → List A → Type 0
  All P [] = Unit
  All P (x ∷ xs) = P x × All P xs

  -- Some entry satisfies `P`.
  abbrev pub Any : (A → Type 0) → List A → Type 0
  Any P [] = ⊥
  Any P (x ∷ xs) = P x ⊎ Any P xs

  pub All-append : (P : A → Type 0) (xs ys : List A) → All P xs → All P ys → All P (xs ++ ys)
  All-append P [] ys hx hy = hy
  All-append P (x ∷ xs) ys hx hy = (hx.0, All-append P xs ys hx.1 hy)

  pub All-imp : (P Q : A → Type 0) (xs : List A) → ((x : A) → P x → Q x) → All P xs → All Q xs
  All-imp P Q [] f h = tt
  All-imp P Q (x ∷ xs) f h = (f x h.0, All-imp P Q xs f h.1)

  pub Any-append_left : (P : A → Type 0) (xs ys : List A) → Any P xs → Any P (xs ++ ys)
  Any-append_left P [] ys h = absurd h
  Any-append_left P (x ∷ xs) ys (inl h) = inl h
  Any-append_left P (x ∷ xs) ys (inr h) = inr (Any-append_left P xs ys h)

  pub Any-append_right : (P : A → Type 0) (xs ys : List A) → Any P ys → Any P (xs ++ ys)
  Any-append_right P [] ys h = h
  Any-append_right P (x ∷ xs) ys h = inr (Any-append_right P xs ys h)

  pub Any-imp : (P Q : A → Type 0) (xs : List A) → ((x : A) → P x → Q x) → Any P xs → Any Q xs
  Any-imp P Q [] f h = absurd h
  Any-imp P Q (x ∷ xs) f (inl h) = inl (f x h)
  Any-imp P Q (x ∷ xs) f (inr h) = inr (Any-imp P Q xs f h)

module _ {ℓ} {A : Type ℓ} where
  pub All-imp_both :
      (P Q R : A → Type 0) (xs : List A)
      → ((x : A) → P x → Q x → R x)
      → All P xs
      → All Q xs
      → All R xs
  All-imp_both P Q R [] f p q = tt
  All-imp_both P Q R (x ∷ xs) f p q = (f x p.0 q.0, All-imp_both P Q R xs f p.1 q.1)

  -- What the filter keeps satisfies the test, and what holds of all holds of what it keeps.
  pub All-filter : (P : A → Type 0) (p : A → Bool) (xs : List A) → All P xs → All P (filter p xs)
  All-filter P p [] h = tt
  All-filter P p (x ∷ xs) h =
      if_both (All P) (p x) (λ _. (h.0, All-filter P p xs h.1)) (λ _. All-filter P p xs h.1)

  pub All-filter_self : (p : A → Bool) (xs : List A) → All (λ x. p x ≡ true) (filter p xs)
  All-filter_self p [] = tt
  All-filter_self p (x ∷ xs) =
      if_both (All (λ x. p x ≡ true)) (p x) (λ e. (e, All-filter_self p xs))
        (λ _. All-filter_self p xs)

module _ {ℓ κ} {A : Type ℓ} {B : Type κ} where
  pub any-map : (p : B → Bool) (f : A → B) (xs : List A) → any p (map f xs) ≡ any (λ x. p (f x)) xs
  any-map p f [] = refl
  any-map p f (x ∷ xs) = ground (arith, any-map p f xs)

module _ {ℓ} {A : Type ℓ} where
  pub any-filter : (p q : A → Bool) (xs : List A) → any p (filter q xs) ≡ any (λ x. q x && p x) xs
  any-filter p q [] = refl
  any-filter p q (x ∷ xs) = ground (arith, any-filter p q xs)

  -- Tests that agree on the entries agree on the list.
  pub any-agree : (p q : A → Bool) (xs : List A) → All (λ x. p x ≡ q x) xs → any p xs ≡ any q xs
  any-agree p q [] h = refl
  any-agree p q (x ∷ xs) h = rw (h.0, any-agree p q xs h.1) refl

  pub any-true : (p : A → Bool) (xs : List A) → any p xs ≡ true → Any (λ x. p x ≡ true) xs
  any-true p [] h = absurd (ground arith)
  any-true p (x ∷ xs) h = elim (Bool-cases (p x)) [
    | inl e ↦ inl e
    | inr e ↦ inr (any-true p xs (rw e at h))
  ]

module _ {A : Type 0} where
  -- A list whose entries are all in another one finds nothing that the other does not.
  pub any-sub :
      (p : A → Bool) (xs ys : List A)
      → All (λ x. Any (λ y. y ≡ x) ys) xs
      → any p xs ≡ true
      → any p ys ≡ true
  any-sub p (x ∷ xs) ys h e = elim (Bool-cases (p x)) [
    | inl hit ↦ found ys x (h.0) hit
    | inr miss ↦ any-sub p xs ys (h.1) (rw miss at e)
  ]
    where
      found : (ys : List A) (x : A) → Any (λ y. y ≡ x) ys → p x ≡ true → any p ys ≡ true
      found [] x h e = absurd h
      found (y ∷ ys) x (inl same) e = rw (same, e) refl
      found (y ∷ ys) x (inr later) e = ground (arith, found ys x later e)
  any-sub p [] ys h e = absurd (ground arith)

  pub any-same :
      (p : A → Bool) (xs ys : List A)
      → All (λ x. Any (λ y. y ≡ x) ys) xs
      → All (λ y. Any (λ x. x ≡ y) xs) ys
      → any p xs ≡ any p ys
  any-same p xs ys h k = ground (arith, any-sub p xs ys h, any-sub p ys xs k)

module _ {ℓ} {A : Type ℓ} where
  pub filter-append :
      (p : A → Bool) (xs ys : List A) → filter p (xs ++ ys) ≡ filter p xs ++ filter p ys
  filter-append p [] ys = refl
  filter-append p (x ∷ xs) ys = ground (arith, filter-append p xs ys)
