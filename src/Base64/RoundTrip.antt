-- ===== src/Base64/RoundTrip.antt =====
-- `_b64url_decode` takes back `_b64url_encode` (app/session.py).
use real_guard_v.Prelude.{
  ℕ, suc, ◌+◌, ◌*◌, ◌/◌, ◌%◌, ◌<◌, ◌≡◌, refl, ◌∙◌, ap, arith, Option, some, List, [], ◌∷◌, ◌++◌,
  All, length,
}
use real_guard_v.Base64.{
  pad, letter, letter_value, b64encode, rstrip_pad, b64url_encode, Quad, first, second, third,
  fourth, Turn, stop, go, turn, take_value, emit, a2b, padding, b64url_decode,
}

letter-ne-pad : (v : ℕ) → letter v ≡ pad → ⊥
unfolding letter
letter-ne-pad v h = ground arith

letter_value-letter : (v : ℕ) → v < 64 → letter_value (letter v) ≡ some v
unfolding letter letter_value
letter_value-letter v h = ground arith

turn-letter : (q : Quad) (pads v : ℕ) → v < 64 → turn q pads (letter v) ≡ take_value q v
unfolding turn
turn-letter q pads v h = ground (arith, letter-ne-pad v, letter_value-letter v)

abbrev pub IsBytes : List ℕ → Type 0
IsBytes s = All (λ b. b < 256) s

-- One letter is one turn.
abbrev after : Turn → List ℕ → Option (List ℕ)
after stop s = some []
after (go out q pads) s = emit out (a2b q pads s)

a2b-letter :
    (q : Quad) (pads v : ℕ) (s : List ℕ)
    → v < 64
    → a2b q pads (letter v ∷ s) ≡ after (take_value q v) s
unfolding a2b
a2b-letter q pads v s h = ground (arith, turn-letter q pads v h)

a2b-block :
    (a b c pads : ℕ) (s : List ℕ)
    → a < 256
    → b < 256
    → c < 256
    → a2b first pads (
        letter (a / 4)
        ∷ letter (a % 4 * 16 + b / 16)
        ∷ letter (b % 16 * 4 + c / 64)
        ∷ letter (c % 64)
        ∷ s)
      ≡ emit (some a) (emit (some b) (emit (some c) (a2b first 0 s)))
a2b-block a b c pads s ha hb hc =
    let v = a / 4 in
    let w = a % 4 * 16 + b / 16 in
    let x = b % 16 * 4 + c / 64 in
    let y = c % 64 in
    let in_a : v * 4 + w / 16 ≡ a = omega arith in
    let in_b : w % 16 * 16 + x / 4 ≡ b = omega arith in
    let in_c : x % 4 * 64 + y ≡ c = omega arith in
    let rest = letter x ∷ letter y ∷ s in
    a2b-letter first pads v (letter w ∷ rest) (omega arith)
    ∙ (a2b-letter (second v) 0 w rest (omega arith)
        ∙ (ap (emit (some (v * 4 + w / 16))) (
              a2b-letter (third (w % 16)) 0 x (letter y ∷ s) (omega arith)
              ∙ ap (emit (some (w % 16 * 16 + x / 4)))
                  (a2b-letter (fourth (x % 4)) 0 y s (omega arith)))
            ∙ rw (in_a, in_b, in_c) refl))

-- The padding that is stripped is put back.
rstrip_pad-block :
    (a b c d : ℕ) (s : List ℕ)
    → rstrip_pad (letter a ∷ letter b ∷ letter c ∷ letter d ∷ s)
      ≡ letter a ∷ letter b ∷ letter c ∷ letter d ∷ rstrip_pad s
unfolding rstrip_pad
rstrip_pad-block a b c d s =
    ground (arith, letter-ne-pad a, letter-ne-pad b, letter-ne-pad c, letter-ne-pad d)

strip-one : (a b : ℕ) → rstrip_pad (letter a ∷ letter b ∷ pad ∷ pad ∷ []) ≡ letter a ∷ letter b ∷ []
unfolding rstrip_pad
strip-one a b = ground (arith, letter-ne-pad a, letter-ne-pad b)

strip-two :
    (a b c : ℕ)
    → rstrip_pad (letter a ∷ letter b ∷ letter c ∷ pad ∷ []) ≡ letter a ∷ letter b ∷ letter c ∷ []
unfolding rstrip_pad
strip-two a b c = ground (arith, letter-ne-pad a, letter-ne-pad b, letter-ne-pad c)

padding-block : (n : ℕ) → padding (suc (suc (suc (suc n)))) ≡ padding n
padding-block n = ground arith

strip-nil : rstrip_pad [] ≡ []
unfolding rstrip_pad
strip-nil = refl

padded-b64encode :
    (s : List ℕ)
    → rstrip_pad (b64encode s) ++ padding (length (rstrip_pad (b64encode s))) ≡ b64encode s
unfolding b64encode
padded-b64encode [] = rw strip-nil refl
padded-b64encode (a ∷ []) = rw (strip-one (a / 4) (a % 4 * 16)) refl
padded-b64encode (a ∷ b ∷ []) = rw (strip-two (a / 4) (a % 4 * 16 + b / 16) (b % 16 * 4)) refl
padded-b64encode (a ∷ b ∷ c ∷ s) =
    let t = rstrip_pad (b64encode s) in
    let block : List ℕ → List ℕ = λ (u : List ℕ).
      letter (a / 4)
      ∷ letter (a % 4 * 16 + b / 16)
      ∷ letter (b % 16 * 4 + c / 64)
      ∷ letter (c % 64)
      ∷ u in
    rw (rstrip_pad-block (a / 4) (a % 4 * 16 + b / 16) (b % 16 * 4 + c / 64) (c % 64) (b64encode s))
      (ap (λ p. block (t ++ p)) (padding-block (length t)) ∙ ap block (padded-b64encode s))

two_pads : (l : ℕ) → a2b (third l) 0 (pad ∷ pad ∷ []) ≡ some []
unfolding a2b turn
two_pads l = refl

one_pad : (l : ℕ) → a2b (fourth l) 0 (pad ∷ []) ≡ some []
unfolding a2b turn
one_pad l = refl

no_letter : (pads : ℕ) → a2b first pads [] ≡ some []
unfolding a2b
no_letter pads = refl

decode-b64encode : (s : List ℕ) (pads : ℕ) → IsBytes s → a2b first pads (b64encode s) ≡ some s
unfolding b64encode
decode-b64encode [] pads h = no_letter pads
decode-b64encode (a ∷ []) pads h =
    let v = a / 4 in
    let w = a % 4 * 16 in
    let in_a : v * 4 + w / 16 ≡ a = omega arith in
    a2b-letter first pads v (letter w ∷ pad ∷ pad ∷ []) (omega (arith, h.0))
    ∙ (a2b-letter (second v) 0 w (pad ∷ pad ∷ []) (omega arith) ∙ rw (in_a, two_pads (w % 16)) refl)
decode-b64encode (a ∷ b ∷ []) pads h =
    let v = a / 4 in
    let w = a % 4 * 16 + b / 16 in
    let x = b % 16 * 4 in
    let in_a : v * 4 + w / 16 ≡ a = omega (arith, h.1.0) in
    let in_b : w % 16 * 16 + x / 4 ≡ b = omega (arith, h.1.0) in
    a2b-letter first pads v (letter w ∷ letter x ∷ pad ∷ []) (omega (arith, h.0))
    ∙ (a2b-letter (second v) 0 w (letter x ∷ pad ∷ []) (omega (arith, h.1.0))
        ∙ (ap (emit (some (v * 4 + w / 16)))
              (a2b-letter (third (w % 16)) 0 x (pad ∷ []) (omega arith))
            ∙ rw (in_a, in_b, one_pad (x % 4)) refl))
decode-b64encode (a ∷ b ∷ c ∷ s) pads h =
    a2b-block a b c pads (b64encode s) h.0 h.1.0 h.1.1.0 ∙ rw (decode-b64encode s 0 h.1.1.1) refl

-- What is encoded is decoded to itself.
pub decode-encode : (s : List ℕ) → IsBytes s → b64url_decode (b64url_encode s) ≡ some s
unfolding b64url_decode b64url_encode
decode-encode s h = rw (padded-b64encode s) (decode-b64encode s 0 h)
