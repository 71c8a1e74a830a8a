-- ===== src/Decision/Bands.antt =====
-- The score conditions of app/decision.py against a description of them: which findings match.
use real_guard_v.Prelude.{
  ℕ, ◌≡◌, refl, ◌∙◌, ap, arith, String, Bool, true, false, not, ◌||◌, ◌&&◌, Option, none, some,
  List, [], ◌∷◌, any, all, ltb, if◌then◌else◌, str_eq, eq_iff, ◌≢◌, lookup, put, lookup-put,
  Bool-cases, inl, inr,
}
use real_guard_v.Text.{Casing}
use real_guard_v.Detectors.{Finding, Category, value}
use real_guard_v.Policy.{Keys}
use real_guard_v.Decision.Conditions.{
  DecisionContext, is_timeout, max, score_or_zero, add_scores, category_scores, in_band, eval_keys,
}

abbrev pub is_of : String → Finding → Bool
is_of c f = str_eq (value f.category) c

-- A score that reaches the lower key, and one that stays below the upper key.
abbrev pub reaches : Keys → ℕ → Bool
reaches k s = elim (k.score_gte) [ none ↦ true | some low ↦ not (ltb s low) ]

abbrev pub stays_below : Keys → ℕ → Bool
stays_below k s = elim (k.score_lt) [ none ↦ true | some high ↦ ltb s high ]

-- The maximum of the scores of one category.
best : String → Option ℕ → List Finding → Option ℕ
best c o [] = o
best c o (f ∷ findings) =
    if is_of c f then best c (some (max (score_or_zero o) f.score)) findings else best c o findings

timeout_value : (g : Category) → is_timeout g ≡ true → value g ≡ "DETECTOR_TIMEOUT"
timeout_value g e = ground arith

lookup-add_scores :
    (c : String) (findings : List Finding) (d : List (String × ℕ))
    → c ≢ "DETECTOR_TIMEOUT"
    → lookup c (add_scores d findings) ≡ best c (lookup c d) findings
unfolding add_scores best
lookup-add_scores c [] d ne = refl
lookup-add_scores c (f ∷ findings) d ne = elim (Bool-cases (is_timeout f.category)) [
  | inl skipped ↦
      let other : str_eq (value f.category) c ≡ false =
        ground (arith, timeout_value f.category skipped, eq_iff (value f.category) c) in
      rw (skipped, other) (lookup-add_scores c findings d ne)
  | inr counted ↦ elim (Bool-cases (str_eq (value f.category) c)) [
    | inl hit ↦
        let same : value f.category ≡ c = (eq_iff (value f.category) c).0 hit in
        rw (counted, hit)
          (lookup-add_scores c findings
              (put (value f.category) (max (score_or_zero (lookup (value f.category) d)) f.score) d)
              ne
            ∙ rw
                (
                  lookup-put c (value f.category)
                      (max (score_or_zero (lookup (value f.category) d)) f.score) d,
                  hit,
                  same,
                )
                refl)
    | inr miss ↦
        rw (counted, miss)
          (lookup-add_scores c findings
              (put (value f.category) (max (score_or_zero (lookup (value f.category) d)) f.score) d)
              ne
            ∙ rw
                (
                  lookup-put c (value f.category)
                      (max (score_or_zero (lookup (value f.category) d)) f.score) d,
                  miss,
                )
                refl)
  ]
]

zero_max : (n : ℕ) → max 0 n ≡ n
zero_max n = ground arith

module _ (k : Keys) (c : String) where
  abbrev reached_before : Option ℕ → Bool
  reached_before none = false
  reached_before (some s) = reaches k s

  abbrev stayed_before : Option ℕ → Bool
  stayed_before none = true
  stayed_before (some s) = stays_below k s

  reaches-max : (a b : ℕ) → reaches k (max a b) ≡ (reaches k a || reaches k b)
  reaches-max a b = ground arith

  stays_below-max : (a b : ℕ) → stays_below k (max a b) ≡ (stays_below k a && stays_below k b)
  stays_below-max a b = ground arith

  in_band-best :
      (o : Option ℕ) (findings : List Finding)
      → in_band k (best c o findings) ≡ (
          (reached_before o || any (λ (f : Finding). is_of c f && reaches k f.score) findings)
          && (stayed_before o
              && all (λ (f : Finding). not (is_of c f) || stays_below k f.score) findings))
  unfolding best
  in_band-best none [] = refl
  in_band-best (some s) [] = ground arith
  in_band-best none (f ∷ findings) = ground (
    arith,
    in_band-best (some (max 0 f.score)) findings,
    in_band-best none findings,
    zero_max f.score,
  )
  in_band-best (some s) (f ∷ findings) = ground (
    arith,
    in_band-best (some (max s f.score)) findings,
    in_band-best (some s) findings,
    reaches-max s f.score,
    stays_below-max s f.score,
  )

-- A condition on a category and a band of scores holds exactly when a finding of the category
-- reaches the lower bound and all of them stay below the upper one: it is the highest score that
-- must lie in the band. (The category is none that the scores leave out.)
pub eval-band :
    (u : Casing) (k : Keys) (c : String) (ctx : DecisionContext)
    → k.category ≡ some c
    → c ≢ "DETECTOR_TIMEOUT"
    → eval_keys u k ctx ≡ (
        any (λ (f : Finding). is_of c f && reaches k f.score) ctx.findings
        && all (λ (f : Finding). not (is_of c f) || stays_below k f.score) ctx.findings)
unfolding eval_keys category_scores
eval-band u k c ctx e ne =
    rw e
      (ap (in_band k) (lookup-add_scores c ctx.findings [] ne) ∙ in_band-best k c none ctx.findings)
