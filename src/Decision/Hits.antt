-- ===== src/Decision/Hits.antt =====
-- The hits of `evaluate_policy` of app/decision.py, told from the rules that fire.
use real_guard_v.Prelude.{
  ◌≡◌, refl, ◌∙◌, ap, arith, String, Bool, false, not, ◌||◌, ◌&&◌, Option, none, some, List, [],
  ◌∷◌, any, is_some, any-filter,
}
use real_guard_v.Text.{Casing}
use real_guard_v.Schemas.{Verdict, Transformation}
use real_guard_v.Detectors.{Plane}
use real_guard_v.Policy.{Condition, Rule, Policy}
use real_guard_v.Decision.Conditions.{eval_condition}
use real_guard_v.Decision.Evaluate.{
  PolicyHit, Facts, context_of, match_planes, hit_of, rule_hit, collect_hits, same_verdict, winning,
}

-- A rule fires on the facts of a request when it is no rate limit, and its condition holds on some
-- plane that it names.
pub fires : Casing → Facts → Rule → Bool
fires u w r = not (is_some r.rate_limit) && elim (r.condition_of) [
  | none ↦ false
  | some c ↦ any (λ p. eval_condition u c (context_of w p)) r.plane
]

match_planes-0 :
    (u : Casing) (c : Condition) (w : Facts) (planes : List Plane)
    → (match_planes u c w planes).0 ≡ any (λ p. eval_condition u c (context_of w p)) planes
unfolding match_planes
match_planes-0 u c w [] = refl
match_planes-0 u c w (p ∷ planes) = ground (arith, match_planes-0 u c w planes)

module _ (u : Casing) (policy : Policy) (w : Facts) where
  -- A test of a hit that reads its rule's columns.
  abbrev pub on_hit : (Verdict → Transformation → String → Bool) → PolicyHit → Bool
  on_hit q h = q h.verdict h.transformation h.rule_id

  abbrev pub on_rule : (Verdict → Transformation → String → Bool) → Rule → Bool
  on_rule q r = fires u w r && q r.verdict r.transformation r.id

  condition_hit :
      (q : Verdict → Transformation → String → Bool) (r : Rule) (rest : List PolicyHit)
      (o : Option Condition)
      → let hit : Option PolicyHit = elim o [
        | none ↦ none
        | some c ↦ hit_of policy r (match_planes u c w r.plane)
      ] in
        any (on_hit q) (elim hit [ none ↦ rest | some h ↦ h ∷ rest ]) ≡ (
          elim o [ none ↦ false | some c ↦ any (λ p. eval_condition u c (context_of w p)) r.plane ]
            && q r.verdict r.transformation r.id
          || any (on_hit q) rest)
  condition_hit q r rest none = refl
  condition_hit q r rest (some c) = ground (arith, match_planes-0 u c w r.plane)

  one_hit :
      (q : Verdict → Transformation → String → Bool) (r : Rule) (rest : List PolicyHit)
      → any (on_hit q) (elim (rule_hit u policy w r) [ none ↦ rest | some hit ↦ hit ∷ rest ])
        ≡ (on_rule q r || any (on_hit q) rest)
  unfolding rule_hit fires
  one_hit q r rest = ground (arith, condition_hit q r rest r.condition_of)

  pub any-collect_hits :
      (q : Verdict → Transformation → String → Bool) (rules : List Rule)
      → any (on_hit q) (collect_hits u policy w rules) ≡ any (on_rule q) rules
  unfolding collect_hits
  any-collect_hits q [] = refl
  any-collect_hits q (r ∷ rules) =
      one_hit q r (collect_hits u policy w rules)
      ∙ ap (λ b. on_rule q r || b) (any-collect_hits q rules)

  pub any-winning :
      (p : PolicyHit → Bool) (v : Verdict) (hits : List PolicyHit)
      → any p (winning v hits) ≡ any (λ (h : PolicyHit). same_verdict h.verdict v && p h) hits
  any-winning p v hits = any-filter p (λ (h : PolicyHit). same_verdict h.verdict v) hits
