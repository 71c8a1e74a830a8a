-- ===== src/Decision/Precedence.antt =====
-- What `evaluate_policy` decides, told from the rules that match and not from the loops.
use real_guard_v.Prelude.{
  ◌≡◌, refl, ◌∙◌, sym, ap, arith, String, Bool, true, false, ◌||◌, ◌&&◌, List, [], ◌∷◌, map, any,
  ltb, ◌==◌, if◌then◌else◌, str_eq, any-map, any-agree, any-same, All, Any, ◌≢◌, mem,
  mem-sorted_set, All-imp, All-imp_both, eq_iff,
}
use real_guard_v.Text.{Casing}
use real_guard_v.Schemas.{
  Verdict, allow, deny, need_approval, is_deny, Transformation, unchanged, redact, mask, sanitize,
  rewrite, truncate,
}
use real_guard_v.Policy.{Rule, Policy}
use real_guard_v.Decision.Evaluate.{
  PolicyHit, Facts, rank, collect_hits, final_verdict, verdicts, same_verdict, order, has,
  last_applicable, reason_code_for_rule, winning, decide_hits, evaluate_policy,
}
use real_guard_v.Decision.Hits.{fires, any-collect_hits, any-winning}

abbrev pub is_need : Verdict → Bool
is_need need_approval = true
is_need _ = false

abbrev pub strongest : Bool → Bool → Verdict
strongest some_deny some_need =
    if some_deny then deny else if some_need then need_approval else allow

final_verdict_from :
    (best : Verdict) (vs : List Verdict)
    → final_verdict best vs
      ≡ strongest (is_deny best || any is_deny vs) (is_need best || any is_need vs)
unfolding final_verdict
final_verdict_from allow [] = refl
final_verdict_from deny [] = refl
final_verdict_from need_approval [] = refl
final_verdict_from best (v ∷ vs) =
    rw (final_verdict_from (if ltb (rank best) (rank v) then v else best) vs) (step best v)
  where
    step :
        (best v : Verdict)
        → let b = if ltb (rank best) (rank v) then v else best in
          strongest (is_deny b || any is_deny vs) (is_need b || any is_need vs)
          ≡ strongest
              (is_deny best || (is_deny v || any is_deny vs))
              (is_need best || (is_need v || any is_need vs))
    step best v = ground arith

-- No two rules have the same id.
abbrev pub DistinctIds : List Rule → Type 0
DistinctIds [] = Unit
DistinctIds (r ∷ rules) = All (λ (s : Rule). s.id ≢ r.id) rules × DistinctIds rules

-- With distinct ids, a rule's id leads to its own reason code.
own_codes :
    (rules : List Rule)
    → DistinctIds rules
    → All (λ (r : Rule). reason_code_for_rule rules r.id ≡ r.reason_code) rules
unfolding reason_code_for_rule
own_codes [] h = tt
own_codes (r ∷ rules) h = (
  ground (arith, eq_iff r.id r.id),
  All-imp_both _ _ _ rules (λ s other own. ground (arith, eq_iff r.id s.id)) h.0
      (own_codes rules h.1),
)

regroup : (a b : Bool) {c d : Bool} → c ≡ d → (a && (b && c)) ≡ ((a && b) && d)
regroup a b e = ground arith

module _ (u : Casing) (policy : Policy) (w : Facts) where
  -- The rules' verdicts that the decision is made of.
  abbrev pub fires_with : (Verdict → Bool) → List Rule → Bool
  fires_with p rules = any (λ (r : Rule). fires u w r && p r.verdict) rules

  verdicts-any :
      (p : Verdict → Bool)
      → any p (verdicts (collect_hits u policy w policy.rules)) ≡ fires_with p policy.rules
  verdicts-any p =
      any-map p (λ (h : PolicyHit). h.verdict) (collect_hits u policy w policy.rules)
      ∙ any-collect_hits u policy w (λ v t k. p v) policy.rules

  -- The verdict is DENY if a rule that fires has the verdict DENY, else NEED_APPROVAL if a rule that
  -- fires has that verdict, else ALLOW, wherever these rules stand in the policy.
  pub verdict-strongest :
      (degraded : Bool)
      → (evaluate_policy u policy w degraded).verdict
        ≡ strongest (fires_with is_deny policy.rules) (fires_with is_need policy.rules)
  unfolding evaluate_policy decide_hits
  verdict-strongest degraded =
      final_verdict_from allow (verdicts (collect_hits u policy w policy.rules))
      ∙ rw (verdicts-any is_deny, verdicts-any is_need) refl

  abbrev pub wins : Verdict → Rule → Bool
  wins v r = fires u w r && same_verdict r.verdict v

  winners-has :
      (v : Verdict) (t : Transformation)
      → has t (
          map
            (λ (h : PolicyHit). h.transformation)
            (winning v (collect_hits u policy w policy.rules)))
        ≡ any
            (λ (r : Rule).
              fires u w r && (same_verdict r.verdict v && order t == order r.transformation))
            policy.rules
  winners-has v t =
      any-map (λ s. order t == order s) (λ (h : PolicyHit). h.transformation)
        (winning v (collect_hits u policy w policy.rules))
      ∙ any-winning u policy w (λ h. order t == order h.transformation) v
          (collect_hits u policy w policy.rules)
      ∙ any-collect_hits u policy w (λ r_v s k. same_verdict r_v v && order t == order s)
          policy.rules

  -- A reason code is listed exactly when a rule that fires with the decision's verdict has it.
  -- (The rules' ids tell them apart.)
  pub reason_codes-mem :
      (degraded : Bool) (c : String)
      → DistinctIds policy.rules
      → let d = evaluate_policy u policy w degraded in
        mem c d.reason_codes
        ≡ any (λ (r : Rule). wins d.verdict r && str_eq c r.reason_code) policy.rules
  unfolding evaluate_policy decide_hits
  reason_codes-mem degraded c unique =
      let hits = collect_hits u policy w policy.rules in
      let v = final_verdict allow (verdicts hits) in
      let code = reason_code_for_rule policy.rules in
      mem-sorted_set c (map (λ (h : PolicyHit). code h.rule_id) (winning v hits))
      ∙ any-map (str_eq c) (λ (h : PolicyHit). code h.rule_id) (winning v hits)
      ∙ any-winning u policy w (λ h. str_eq c (code h.rule_id)) v hits
      ∙ any-collect_hits u policy w (λ r_v s k. same_verdict r_v v && str_eq c (code k))
          policy.rules
      ∙ any-agree _ _ policy.rules (
          All-imp _ _ policy.rules
            (λ r own. regroup (fires u w r) (same_verdict r.verdict v) (ap (str_eq c) own))
            (own_codes policy.rules unique))

  -- The transformation of a decision that is not DENY.
  applicable-transformation :
      (degraded : Bool)
      → let d = evaluate_policy u policy w degraded in
        d.transformation ≡ (
          if is_deny d.verdict
          then unchanged
          else last_applicable (
              map
                (λ (h : PolicyHit). h.transformation)
                (winning d.verdict (collect_hits u policy w policy.rules))))
  unfolding evaluate_policy decide_hits
  applicable-transformation degraded = refl

-- Two lists of rules with the same entries.
abbrev pub SameRules : List Rule → List Rule → Type 0
SameRules rs ss = All (λ r. Any (λ s. s ≡ r) ss) rs × All (λ s. Any (λ r. r ≡ s) rs) ss

last_applicable-same :
    (ts us : List Transformation)
    → ((t : Transformation) → has t ts ≡ has t us)
    → last_applicable ts ≡ last_applicable us
unfolding last_applicable
last_applicable-same ts us h = rw (h mask, h redact, h rewrite, h sanitize, h truncate) refl

-- The order of a policy's rules does not matter: with the same rules, listed in any order and any
-- number of times, the verdict and the transformation are the same.
pub evaluate-SameRules :
    (u : Casing) (p q : Policy) (w : Facts) (degraded : Bool)
    → SameRules p.rules q.rules
    → let d = evaluate_policy u p w degraded in
      let e = evaluate_policy u q w degraded in
      (d.verdict ≡ e.verdict) × (d.transformation ≡ e.transformation)
evaluate-SameRules u p q w degraded (there, back) = (
  verdict,
  applicable-transformation u p w degraded
      ∙ rw (verdict, transformation_of (evaluate_policy u q w degraded).verdict) refl
      ∙ sym (applicable-transformation u q w degraded),
)
  where
    same : (f : Rule → Bool) → any f p.rules ≡ any f q.rules
    same f = any-same f p.rules q.rules there back

    verdict : (evaluate_policy u p w degraded).verdict ≡ (evaluate_policy u q w degraded).verdict
    verdict =
        verdict-strongest u p w degraded
        ∙ rw
            (
              same (λ (r : Rule). fires u w r && is_deny r.verdict),
              same (λ (r : Rule). fires u w r && is_need r.verdict),
            )
            refl
        ∙ sym (verdict-strongest u q w degraded)

    transformation_of :
        (v : Verdict)
        → last_applicable
            (map (λ (h : PolicyHit). h.transformation) (winning v (collect_hits u p w p.rules)))
          ≡ last_applicable
              (map (λ (h : PolicyHit). h.transformation) (winning v (collect_hits u q w q.rules)))
    transformation_of v =
        last_applicable-same _ _ (λ t. winners-has u p w v t ∙ same _ ∙ sym (winners-has u q w v t))
