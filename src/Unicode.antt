-- ===== src/Unicode.antt =====
-- Text as a sequence of Unicode scalar values.
pub mod Utf8
use Prim.Native.Char.{Char, char, IsScalar}
use native.Mathlib.Decide.{dec_lt}
use mathlib.Core.Logic.{dite}
use real_guard_v.Prelude.{ℕ, ◌<◌, String, List, [], ◌∷◌, ◌≡◌, refl, arith}
use real_guard_v.Text.{codes}

low_IsScalar : (n : ℕ) → n < 0xd800 → IsScalar n
low_IsScalar n h = ground arith

high_IsScalar : (n : ℕ) → 0xdfff < n → n < 0x110000 → IsScalar n
high_IsScalar n h k = ground arith

-- `chr(n)`, and U+FFFD for a number that is no scalar value.
unfoldable pub chr : ℕ → Char
unfolding low_IsScalar high_IsScalar dec_lt
chr n =
    dite (dec_lt n 0xd800) (λ h. char n (low_IsScalar n h))
      (λ _.
        dite (dec_lt 0xdfff n)
          (λ h. dite (dec_lt n 0x110000) (λ k. char n (high_IsScalar n h k)) (λ _. char 0xfffd tt))
          (λ _. char 0xfffd tt))

unfoldable pub text_of_codes : List ℕ → String
unfolding chr
text_of_codes [] = String.[]
text_of_codes (c ∷ s) = String.◌∷◌ (chr c) (text_of_codes s)

t1 : text_of_codes (codes "abc") ≡ "abc"
unfolding text_of_codes
t1 = refl
