-- ===== src/Decision/Combine.antt =====
-- `combine_decisions` of app/decision.py, and its outcome told from the decisions combined.
use real_guard_v.Prelude.{
  ℕ, ◌≡◌, refl, ◌∙◌, arith, String, Bool, true, false, ◌||◌, List, [], ◌∷◌, ◌++◌, map, any, filter,
  ltb, ◌==◌, if◌then◌else◌, put, sorted_set, Bool-cases, inl, inr, ==_iff,
}
use real_guard_v.Errors.{Result, ok, err, value_error}
use real_guard_v.Schemas.{Verdict, allow, is_deny, unchanged}
use real_guard_v.Decision.Conditions.{max}
use real_guard_v.Decision.Evaluate.{PolicyHit, Decision, rank, last_applicable}
use real_guard_v.Decision.Precedence.{is_need, strongest}

abbrev pub best_rank : List Decision → ℕ
best_rank [] = 0
best_rank (d ∷ ds) = max (rank d.verdict) (best_rank ds)

abbrev pub winners : List Decision → List Decision
winners ds = filter (λ (d : Decision). rank d.verdict == best_rank ds) ds

-- `seen_hits[h.rule_id] = h`, over the hits of all decisions
abbrev pub see_hits : List (String × PolicyHit) → List PolicyHit → List (String × PolicyHit)
see_hits seen [] = seen
see_hits seen (h ∷ hits) = see_hits (put h.rule_id h seen) hits

abbrev pub all_hits : List Decision → List PolicyHit
all_hits [] = []
all_hits (d ∷ ds) = d.policy_hits ++ all_hits ds

abbrev pub all_codes : List Decision → List String
all_codes [] = []
all_codes (d ∷ ds) = d.reason_codes ++ all_codes ds

abbrev pub head_verdict : List Decision → Verdict
head_verdict [] = allow
head_verdict (d ∷ ds) = d.verdict

-- Two decisions or more, the first of them `d`.
unfoldable pub combine_many : Decision → List Decision → Decision
unfolding last_applicable
combine_many d ds =
    let won = winners (d ∷ ds) in
    let v = head_verdict won in
    record {
      verdict = v;
      transformation =
          if is_deny v
          then unchanged
          else last_applicable (map (λ (e : Decision). e.transformation) won);
      reason_codes = sorted_set (all_codes won);
      policy_hits = map (λ p. p.1) (see_hits [] (all_hits (d ∷ ds)));
      policy_version = d.policy_version;
      degraded = any (λ (e : Decision). e.degraded) (d ∷ ds);
    }

unfoldable pub combine_decisions : List Decision → Result Decision
unfolding combine_many
combine_decisions [] = err value_error
combine_decisions (d ∷ []) = ok d
combine_decisions (d ∷ (e ∷ ds)) = ok (combine_many d (e ∷ ds))

-- The first decision of a given rank, if there is one.
first_of_rank :
    (n : ℕ) (ds : List Decision)
    → any (λ (d : Decision). rank d.verdict == n) ds ≡ true
    → rank (head_verdict (filter (λ (d : Decision). rank d.verdict == n) ds)) ≡ n
first_of_rank n [] h = absurd (ground arith)
first_of_rank n (d ∷ ds) h = ground (arith, first_of_rank n ds)

reached_max :
    (r b : ℕ) (ds : List Decision)
    → any (λ (e : Decision). rank e.verdict == b) ds ≡ true
    → ((r == max r b) || any (λ (e : Decision). rank e.verdict == max r b) ds) ≡ true
reached_max r b ds h = elim (Bool-cases (ltb r b)) [
  | inl less ↦ rw (less, h) (or-true (r == b))
  | inr more ↦ rw (more, (==_iff r r).1 refl) refl
]
  where
    or-true : (p : Bool) → (p || true) ≡ true
    or-true p = ground arith

best_rank-reached :
    (d : Decision) (ds : List Decision)
    → any (λ (e : Decision). rank e.verdict == best_rank (d ∷ ds)) (d ∷ ds) ≡ true
best_rank-reached d [] = ground arith
best_rank-reached d (e ∷ ds) =
    reached_max (rank d.verdict) (best_rank (e ∷ ds)) (e ∷ ds) (best_rank-reached e ds)

best_rank-strongest :
    (ds : List Decision)
    → best_rank ds
      ≡ rank (
          strongest
            (any (λ (d : Decision). is_deny d.verdict) ds)
            (any (λ (d : Decision). is_need d.verdict) ds))
best_rank-strongest [] = refl
best_rank-strongest (d ∷ ds) = ground (arith, best_rank-strongest ds)

rank-injective : (v w : Verdict) → rank v ≡ rank w → v ≡ w
rank-injective v w h = ground arith

abbrev pub any_verdict : (Verdict → Bool) → List Decision → Bool
any_verdict p ds = any (λ (d : Decision). p d.verdict) ds

winning_verdict :
    (d : Decision) (ds : List Decision)
    → head_verdict (winners (d ∷ ds))
      ≡ strongest (any_verdict is_deny (d ∷ ds)) (any_verdict is_need (d ∷ ds))
winning_verdict d ds = rank-injective _ _ (
    first_of_rank (best_rank (d ∷ ds)) (d ∷ ds) (best_rank-reached d ds)
    ∙ best_rank-strongest (d ∷ ds))

lone_verdict : (v : Verdict) → v ≡ strongest (is_deny v || false) (is_need v || false)
lone_verdict v = ground arith

-- Combining at least one decision succeeds. Its verdict is DENY if a decision's is, else
-- NEED_APPROVAL if a decision's is, else ALLOW; and it is degraded if a decision is.
pub combine-strongest :
    (d : Decision) (ds : List Decision)
    → (c : Decision) × (combine_decisions (d ∷ ds) ≡ ok c)
      × (c.verdict ≡ strongest (any_verdict is_deny (d ∷ ds)) (any_verdict is_need (d ∷ ds)))
      × (c.degraded ≡ any (λ (e : Decision). e.degraded) (d ∷ ds))
unfolding combine_decisions combine_many
combine-strongest d [] = (d, refl, lone_verdict d.verdict, ground arith)
combine-strongest d (e ∷ ds) = (combine_many d (e ∷ ds), refl, winning_verdict d (e ∷ ds), refl)
