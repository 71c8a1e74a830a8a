-- ===== src/Session/Parts.antt =====
-- The characters of a cookie of app/session.py, and the parts into which it is split.
use real_guard_v.Prelude.{
  ℕ, ◌<◌, ◌≡◌, ◌≢◌, refl, arith, true, Option, none, some, List, [], ◌∷◌, ◌++◌, All, All-append,
  if_both, ltb, ◌==◌,
}
use real_guard_v.Text.{same_codes}
use real_guard_v.Base64.{letter, b64encode, rstrip_pad, b64url_encode, pad, strip_onto}
use real_guard_v.Base64.RoundTrip.{IsBytes}
use real_guard_v.Unicode.Utf8.{encode, encode_char, IsText, is_scalar}
use real_guard_v.Session.{hex, hex_digit, dot, separator, is_ascii, rpartition, split, before_dot}

-- ASCII, and neither a dot nor a bar.
abbrev pub IsPlain : ℕ → Type 0
IsPlain c = (c < 123) × (c ≢ 46)

letter-IsPlain : (v : ℕ) → IsPlain (letter v)
unfolding letter
letter-IsPlain v = (ground arith, ground arith)

pad-IsPlain : IsPlain pad
pad-IsPlain = (omega arith, omega arith)

b64encode-IsPlain : (s : List ℕ) → All IsPlain (b64encode s)
unfolding b64encode
b64encode-IsPlain [] = tt
b64encode-IsPlain (a ∷ []) =
    (letter-IsPlain _, (letter-IsPlain _, (pad-IsPlain, (pad-IsPlain, tt))))
b64encode-IsPlain (a ∷ b ∷ []) =
    (letter-IsPlain _, (letter-IsPlain _, (letter-IsPlain _, (pad-IsPlain, tt))))
b64encode-IsPlain (a ∷ b ∷ c ∷ s) = (
  letter-IsPlain _,
  (letter-IsPlain _, (letter-IsPlain _, (letter-IsPlain _, b64encode-IsPlain s))),
)

strip_onto-IsPlain : (c : ℕ) (s : List ℕ) → IsPlain c → All IsPlain s → All IsPlain (strip_onto c s)
strip_onto-IsPlain c [] p h = if_both (All IsPlain) (c == pad) (λ _. tt) (λ _. (p, tt))
strip_onto-IsPlain c (d ∷ s) p h = (p, h)

rstrip_pad-IsPlain : (s : List ℕ) → All IsPlain s → All IsPlain (rstrip_pad s)
unfolding rstrip_pad
rstrip_pad-IsPlain [] h = tt
rstrip_pad-IsPlain (c ∷ s) h = strip_onto-IsPlain c (rstrip_pad s) h.0 (rstrip_pad-IsPlain s h.1)

pub b64url_encode-IsPlain : (s : List ℕ) → All IsPlain (b64url_encode s)
unfolding b64url_encode
b64url_encode-IsPlain s = rstrip_pad-IsPlain (b64encode s) (b64encode-IsPlain s)

hex_digit-IsPlain : (v : ℕ) → v < 16 → IsPlain (hex_digit v)
hex_digit-IsPlain v h = (ground arith, ground arith)

pub hex-IsPlain : (s : List ℕ) → All IsPlain (hex s)
hex-IsPlain [] = tt
hex-IsPlain (b ∷ s) =
    (hex_digit-IsPlain _ (omega arith), (hex_digit-IsPlain _ (omega arith), hex-IsPlain s))

pub plain-is_ascii : (s : List ℕ) → All IsPlain s → is_ascii s ≡ true
plain-is_ascii [] h = refl
plain-is_ascii (c ∷ s) h = ground (arith, plain-is_ascii s h.1)

pub same_codes_refl : (s : List ℕ) → same_codes s s ≡ true
same_codes_refl [] = refl
same_codes_refl (c ∷ s) = ground (arith, same_codes_refl s)

rpartition-none : (s : List ℕ) → All IsPlain s → rpartition s ≡ none
unfolding rpartition
rpartition-none [] h = refl
rpartition-none (c ∷ s) h = ground (arith, rpartition-none s h.1, h.0.1)

-- The last dot of a cookie is the one in front of its signature.
pub rpartition-signed : (s t : List ℕ) → All IsPlain t → rpartition (s ++ (dot ∷ t)) ≡ some (s, t)
unfolding rpartition
rpartition-signed [] t h = ground (arith, rpartition-none t h)
rpartition-signed (c ∷ s) t h = ground (arith, rpartition-signed s t h)

before_dot-parts :
    (c : ℕ) (found : Option (List ℕ × List ℕ)) (s : List ℕ) {before after : List ℕ}
    → ((b a : List ℕ) → found ≡ some (b, a) → s ≡ b ++ (dot ∷ a))
    → before_dot c found s ≡ some (before, after)
    → c ∷ s ≡ before ++ (dot ∷ after)
before_dot-parts c none s ih h = ground arith
before_dot-parts c (some (b, a)) s ih h = ground (arith, ih b a refl)

-- A text is put together again from the parts around its last dot.
pub rpartition-parts :
    (s : List ℕ) {before after : List ℕ}
    → rpartition s ≡ some (before, after)
    → s ≡ before ++ (dot ∷ after)
unfolding rpartition
rpartition-parts [] h = ground arith
rpartition-parts (c ∷ s) {before} {after} h =
    before_dot-parts c (rpartition s) s (λ b a e. rpartition-parts s e) h

abbrev pub NoBar : List ℕ → Type 0
NoBar s = All (λ c. c ≢ 124) s

pub split-bar : (s t : List ℕ) → NoBar s → split (s ++ (separator ∷ t)) ≡ s ∷ split t
unfolding split
split-bar [] t h = refl
split-bar (c ∷ s) t h = ground (arith, split-bar s t h.1, h.0)

pub split-last : (s : List ℕ) → NoBar s → split s ≡ s ∷ []
unfolding split
split-last [] h = refl
split-last (c ∷ s) h = ground (arith, split-last s h.1, h.0)

encode_char-IsBytes : (c : ℕ) → is_scalar c ≡ true → IsBytes (encode_char c)
unfolding encode_char
encode_char-IsBytes c h =
    if_both IsBytes (ltb c 0x80) (λ small. (ground arith, tt))
      λ _.
        if_both IsBytes (ltb c 0x800) (λ small. (ground arith, (ground arith, tt)))
          λ _.
            if_both IsBytes (ltb c 0x10000)
              (λ small. (ground arith, (ground arith, (ground arith, tt))))
              λ _. (ground arith, (ground arith, (ground arith, (ground arith, tt))))

pub encode-IsBytes : (s : List ℕ) → IsText s → IsBytes (encode s)
unfolding encode
encode-IsBytes [] h = tt
encode-IsBytes (c ∷ s) h =
    All-append (λ b. b < 256) (encode_char c) (encode s) (encode_char-IsBytes c h.0)
      (encode-IsBytes s h.1)
