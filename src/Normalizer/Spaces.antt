-- ===== src/Normalizer/Spaces.antt =====
-- The white space of a normalised text (app/normalizer.py): `_collapse_whitespace`, and what it leaves.
use real_guard_v.Prelude.{
  ℕ, ◌≡◌, refl, ap, arith, Bool, true, false, not, ◌&&◌, ◌||◌, List, [], ◌∷◌, ◌==◌, if◌then◌else◌,
  All, if_both,
}
use real_guard_v.Text.{is_space, lstrip, rstrip}
use real_guard_v.Normalizer.{single_spaces}

-- Each run of white space is one blank; with `running`, there is none at the front.
abbrev pub is_single : Bool → List ℕ → Bool
is_single running [] = true
is_single running (c ∷ s) =
    (not (is_space c) || (not running && c == 32)) && is_single (is_space c) s

pub blank : is_space 32 ≡ true
unfolding is_space
blank = refl

pub single_spaces-single : (b : Bool) (s : List ℕ) → is_single b (single_spaces b s) ≡ true
unfolding single_spaces
single_spaces-single b [] = refl
single_spaces-single b (c ∷ s) = ground (arith, single_spaces-single (is_space c) s, blank)

pub is_single_weaken : (s : List ℕ) → is_single true s ≡ true → is_single false s ≡ true
is_single_weaken [] h = refl
is_single_weaken (c ∷ s) h = ground arith

pub lstrip-single :
    (b : Bool) (s : List ℕ) → is_single b s ≡ true → is_single true (lstrip s) ≡ true
unfolding lstrip
lstrip-single b [] h = refl
lstrip-single b (c ∷ s) h = ground (arith, lstrip-single (is_space c) s)

pub lstrip_single : (s : List ℕ) → is_single true s ≡ true → lstrip s ≡ s
unfolding lstrip
lstrip_single [] h = refl
lstrip_single (c ∷ s) h = ground arith

pub single_spaces_same : (b : Bool) (s : List ℕ) → is_single b s ≡ true → single_spaces b s ≡ s
unfolding single_spaces
single_spaces_same b [] h = refl
single_spaces_same b (c ∷ s) h = ground (arith, single_spaces_same (is_space c) s)

-- One step of `rstrip`.
abbrev rstrip_onto : ℕ → List ℕ → List ℕ
rstrip_onto c r = elim r [ [] ↦ if is_space c then [] else c ∷ [] | d ∷ rest ↦ c ∷ d ∷ rest ]

rstrip_onto-single :
    (b : Bool) (c : ℕ) (r : List ℕ)
    → (not (is_space c) || (not b && c == 32)) ≡ true
    → is_single (is_space c) r ≡ true
    → is_single b (rstrip_onto c r) ≡ true
rstrip_onto-single b c [] h k = ground arith
rstrip_onto-single b c (d ∷ r) h k = ground arith

pub rstrip-single : (b : Bool) (s : List ℕ) → is_single b s ≡ true → is_single b (rstrip s) ≡ true
unfolding rstrip
rstrip-single b [] h = refl
rstrip-single b (c ∷ s) h =
    rstrip_onto-single b c (rstrip s) (ground arith) (rstrip-single (is_space c) s (ground arith))

rstrip_onto_twice : (c : ℕ) (r : List ℕ) → rstrip r ≡ r → rstrip (rstrip_onto c r) ≡ rstrip_onto c r
unfolding rstrip
rstrip_onto_twice c [] h = ground arith
rstrip_onto_twice c (d ∷ r) h = ap (rstrip_onto c) h

pub rstrip_twice : (s : List ℕ) → rstrip (rstrip s) ≡ rstrip s
unfolding rstrip
rstrip_twice [] = refl
rstrip_twice (c ∷ s) = rstrip_onto_twice c (rstrip s) (rstrip_twice s)

-- What holds of the characters of a text, and of a blank, holds after the collapsing.
module _ (P : ℕ → Type 0) where
  pub All-single_spaces : (b : Bool) (s : List ℕ) → P 32 → All P s → All P (single_spaces b s)
  unfolding single_spaces
  All-single_spaces b [] p h = tt
  All-single_spaces b (c ∷ s) p h =
      let rest = All-single_spaces (is_space c) s p h.1 in
      if_both (All P) (is_space c) (λ _. if_both (All P) b (λ _. rest) (λ _. (p, rest)))
        (λ _. (h.0, rest))

  pub All-lstrip : (s : List ℕ) → All P s → All P (lstrip s)
  unfolding lstrip
  All-lstrip [] h = tt
  All-lstrip (c ∷ s) h = if_both (All P) (is_space c) (λ _. All-lstrip s h.1) (λ _. h)

  All-rstrip_onto : (c : ℕ) (r : List ℕ) → P c → All P r → All P (rstrip_onto c r)
  All-rstrip_onto c [] p h = if_both (All P) (is_space c) (λ _. tt) (λ _. (p, tt))
  All-rstrip_onto c (d ∷ r) p h = (p, h)

  pub All-rstrip : (s : List ℕ) → All P s → All P (rstrip s)
  unfolding rstrip
  All-rstrip [] h = tt
  All-rstrip (c ∷ s) h = All-rstrip_onto c (rstrip s) h.0 (All-rstrip s h.1)
