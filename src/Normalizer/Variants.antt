-- ===== src/Normalizer/Variants.antt =====
-- `_decode_variants` and `normalize` of app/normalizer.py. None of the steps raises here: the decoders
-- catch the errors of what they call.
use real_guard_v.Prelude.{
  ℕ, zero, suc, ◌+◌, Bool, true, false, ◌||◌, Option, none, some, List, [], ◌∷◌, map, any,
  if◌then◌else◌,
}
use mathlib.Core.List.{reverse}
use real_guard_v.Text.{same_codes}
use real_guard_v.Normalizer.{normalize_text}
use real_guard_v.Normalizer.Candidates.{match_base64, match_hex, match_percent, find_all}
use real_guard_v.Normalizer.Decoders.{try_decode_base64, try_decode_hex, try_decode_percent}

pub data Encoding : Type 0 where
  base64 hexadecimal percent : Encoding

pub record DecodedVariant : Type 0 where
  pub text : List ℕ
  pub depth : ℕ
  pub encoding : Encoding

-- `had_decode_error` is left out: it is set by an exception that no step here raises.
pub record NormalizedContent : Type 0 where
  pub original : List ℕ
  pub normalized : List ℕ
  pub decoded_variants : List DecodedVariant

-- `all_texts`
abbrev pub all_texts : NormalizedContent → List (List ℕ × ℕ)
all_texts c = (c.normalized, 0) ∷ map (λ (v : DecodedVariant). (v.text, v.depth)) c.decoded_variants

-- The loop's state: what was seen, and the variants and the next frontier so far, the last first.
pub record Progress : Type 0 where
  pub seen : List (List ℕ)
  pub variants : List DecodedVariant
  pub next : List (List ℕ)

-- The Unicode tables: NFKC, and the printable characters outside ASCII.
pub record Tables : Type 0 where
  pub nfkc : List ℕ → List ℕ
  pub other_printable : ℕ → Bool

abbrev pub is_empty : List ℕ → Bool
is_empty [] = true
is_empty _ = false

module _ (t : Tables) where
  abbrev pub decoder : Encoding → List ℕ → Option (List ℕ)
  decoder base64 s = try_decode_base64 t.other_printable s
  decoder hexadecimal s = try_decode_hex t.other_printable s
  decoder percent s = try_decode_percent t.other_printable s

  abbrev pub candidates : Encoding → List ℕ → List (List ℕ)
  candidates base64 s = find_all match_base64 0 s
  candidates hexadecimal s = find_all match_hex 0 s
  candidates percent s = find_all match_percent 0 s

  -- `if decoded and decoded not in seen`
  unfoldable pub note : ℕ → Encoding → Option (List ℕ) → Progress → Progress
  note depth encoding none p = p
  note depth encoding (some decoded) p =
      let text = normalize_text t.nfkc decoded in
      if is_empty decoded || any (same_codes decoded) p.seen then p else record {
        seen = decoded ∷ p.seen;
        variants = record { text = text; depth = depth; encoding = encoding } ∷ p.variants;
        next = text ∷ p.next;
      }

  -- The loops over the matches of a pattern, the decoders, and the frontier.
  unfoldable pub over_matches : ℕ → Encoding → List (List ℕ) → Progress → Progress
  over_matches depth encoding [] p = p
  over_matches depth encoding (m ∷ matches) p =
      over_matches depth encoding matches (note depth encoding (decoder encoding m) p)

  unfoldable pub over_decoders : ℕ → List ℕ → Progress → Progress
  over_decoders depth s p = over_matches depth percent (candidates percent s) (
      over_matches depth hexadecimal (candidates hexadecimal s)
        (over_matches depth base64 (candidates base64 s) p))

  unfoldable pub over_frontier : ℕ → List (List ℕ) → Progress → Progress
  over_frontier depth [] p = p
  over_frontier depth (s ∷ frontier) p = over_frontier depth frontier (over_decoders depth s p)

  -- What follows a depth: nothing, if it has found nothing new.
  abbrev pub deeper : (List (List ℕ) → Progress → Progress) → Progress → List (List ℕ) → Progress
  deeper continued q [] = q
  deeper continued q (s ∷ next) = continued (reverse (s ∷ next)) q

  -- The loop over the depths; `frontier` is in the order of the program.
  unfoldable pub over_depths : ℕ → ℕ → List (List ℕ) → Progress → Progress
  over_depths zero depth frontier p = p
  over_depths (suc more) depth frontier p =
      let q = over_frontier depth frontier (record p { next = [] }) in
      deeper (over_depths more (depth + 1)) q q.next

  unfoldable pub decode_variants : List ℕ → ℕ → List DecodedVariant
  decode_variants text max_depth =
      reverse
        (over_depths max_depth 1 (text ∷ [])
          (record { seen = text ∷ []; variants = []; next = [] })).variants

  unfoldable pub normalize : List ℕ → ℕ → NormalizedContent
  normalize text max_decode_depth =
      let normalized = normalize_text t.nfkc text in
      record {
        original = text;
        normalized = normalized;
        decoded_variants = decode_variants normalized max_decode_depth;
      }
