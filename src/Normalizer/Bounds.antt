-- ===== src/Normalizer/Bounds.antt =====
-- How deep the variants of app/normalizer.py are decoded, and what their texts are like.
use real_guard_v.Prelude.{
  ℕ, zero, suc, ◌+◌, ◌≤◌, arith, ◌||◌, Option, none, some, List, [], ◌∷◌, any, All, All-append,
  Bool-cases, inl, inr,
}
use mathlib.Core.List.{reverse, reverse-cons}
use mathlib.Core.Path.{subst, sym}
use real_guard_v.Text.{same_codes}
use real_guard_v.Normalizer.{normalize_text}
use real_guard_v.Normalizer.Clean.{IsClean, normalize_text-IsClean}
use real_guard_v.Normalizer.Variants.{
  Encoding, base64, hexadecimal, percent, DecodedVariant, Progress, Tables, decoder, candidates,
  note, over_matches, over_decoders, over_frontier, is_empty, deeper, over_depths, decode_variants,
}

All-reverse : {A : Type 0} (P : A → Type 0) (xs : List A) → All P xs → All P (reverse xs)
All-reverse P [] h = tt
All-reverse P (x ∷ xs) h =
    subst (All P) (sym (reverse-cons x xs))
      (All-append P (reverse xs) (x ∷ []) (All-reverse P xs h.1) (h.0, tt))

module _ (t : Tables) (low high : ℕ) where
  -- A variant of a depth in bounds, with a normalised text.
  abbrev pub InBounds : DecodedVariant → Type 0
  InBounds v = (low ≤ v.depth) × (v.depth ≤ high) × IsClean v.text

  abbrev Holds : Progress → Type 0
  Holds p = All InBounds p.variants

  module _ (depth : ℕ) (below : low ≤ depth) (above : depth ≤ high) where
    note-Holds :
        (e : Encoding) (decoded : Option (List ℕ)) (p : Progress)
        → Holds p
        → Holds (note t depth e decoded p)
    unfolding note
    note-Holds e none p h = h
    note-Holds e (some s) p h =
        let new : InBounds
            (record { text = normalize_text t.nfkc s; depth = depth; encoding = e }) =
          (below, above, (normalize_text-IsClean t.nfkc s).0) in
        elim (Bool-cases (is_empty s || any (same_codes s) p.seen)) [
          | inl old ↦ rw old h
          | inr fresh ↦ rw fresh (new, h)
        ]

    over_matches-Holds :
        (e : Encoding) (matches : List (List ℕ)) (p : Progress)
        → Holds p
        → Holds (over_matches t depth e matches p)
    unfolding over_matches
    over_matches-Holds e [] p h = h
    over_matches-Holds e (m ∷ matches) p h =
        over_matches-Holds e matches (note t depth e (decoder t e m) p)
          (note-Holds e (decoder t e m) p h)

    over_decoders-Holds : (s : List ℕ) (p : Progress) → Holds p → Holds (over_decoders t depth s p)
    unfolding over_decoders
    over_decoders-Holds s p h = over_matches-Holds percent (candidates t percent s) _ (
        over_matches-Holds hexadecimal (candidates t hexadecimal s) _
          (over_matches-Holds base64 (candidates t base64 s) p h))

    over_frontier-Holds :
        (frontier : List (List ℕ)) (p : Progress)
        → Holds p
        → Holds (over_frontier t depth frontier p)
    unfolding over_frontier
    over_frontier-Holds [] p h = h
    over_frontier-Holds (s ∷ frontier) p h =
        over_frontier-Holds frontier (over_decoders t depth s p) (over_decoders-Holds s p h)

-- The frontier decides whether the next depth is entered.
module _ (t : Tables) (low high : ℕ) where
  deeper-Holds :
      (continued : List (List ℕ) → Progress → Progress) (q : Progress) (next : List (List ℕ))
      → Holds t low high q
      → ((frontier : List (List ℕ)) (r : Progress)
          → Holds t low high r
          → Holds t low high (continued frontier r))
      → Holds t low high (deeper t continued q next)
  deeper-Holds continued q [] h k = h
  deeper-Holds continued q (s ∷ next) h k = k (reverse (s ∷ next)) q h

  over_depths-Holds :
      (more depth : ℕ) (frontier : List (List ℕ)) (p : Progress)
      → low ≤ depth
      → depth + more ≤ high + 1
      → Holds t low high p
      → Holds t low high (over_depths t more depth frontier p)
  unfolding over_depths
  over_depths-Holds zero depth frontier p below above h = h
  over_depths-Holds (suc more) depth frontier p below above h =
      let q = over_frontier t depth frontier (record p { next = [] }) in
      let held : Holds t low high q =
        over_frontier-Holds t low high depth below (omega arith) frontier (record p { next = [] })
          h in
      deeper-Holds (over_depths t more (depth + 1)) q q.next held
        (λ next r k. over_depths-Holds more (depth + 1) next r (omega arith) (omega arith) k)

module _ (t : Tables) where
  -- Every variant that decoding finds is at least one layer deep and at most `max_depth`, and its text is
  -- normalised.
  pub decode_variants-bounds :
      (text : List ℕ) (max_depth : ℕ)
      → All (InBounds t 1 max_depth) (decode_variants t text max_depth)
  unfolding decode_variants
  decode_variants-bounds text max_depth =
      All-reverse (InBounds t 1 max_depth) _
        (over_depths-Holds t 1 max_depth max_depth 1 (text ∷ []) _ (omega arith) (omega arith) tt)
